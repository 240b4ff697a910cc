-- ===== src/Ring/Simple/Order.antt =====
-- What one producer and one consumer at the same time keep to, however their accesses interleave.
use my_streamer.Prelude.{
  ℕ, suc, ◌+◌, ◌%◌, ◌≤◌, ◌<◌, false, List, [], ◌∷◌, ◌++◌, ◌≡◌, ◌≢◌, refl, sym, ap, ◌∙◌, arith, ◌==◌,
  length, get_or, set, get_or-set_self, append_assoc, length-append, length-set,
}
use my_streamer.Ring.Window.{Holds-concat, Holds-join, Holds-init, wrap_cases}
use my_streamer.Ring.Simple.{Ring, next_index}
use my_streamer.Ring.Simple.Refine.{
  IsQueue, next-eq_iff_full, eq_iff_empty, next_at, IsQueue-tail, IsQueue-initial,
}
use my_streamer.Ring.Simple.Threads.{
  Producer, Consumer, World, Step, Reach, here, next, initial, push_test, push_copy, push_store,
  pop_test, pop_copy, pop_store,
}

module _ {A : Type 0} (size : ℕ) where
  -- what each thread knows of the queue that the ring holds
  abbrev Produces : Producer A → Ring A → List A → Type 0
  Produces Producer.resting r q = Unit
  Produces (Producer.tested x) r q = length q + 1 < size
  Produces (Producer.copied x) r q = (length q + 1 < size) × ((d : A) → get_or r.ring r.head d ≡ x)

  abbrev Consumes : Consumer A → List A → Type 0
  Consumes Consumer.resting q = Unit
  Consumes Consumer.tested [] = ⊥
  Consumes Consumer.tested (x ∷ q) = Unit
  Consumes (Consumer.copied y) [] = ⊥
  Consumes (Consumer.copied y) (x ∷ q) = x ≡ y

  record Inv (w : World A) : Type 0 where
    queue : List A
    valid : IsQueue size w.ring queue
    order : w.sent ≡ w.received ++ queue
    produces : Produces w.producer w.ring queue
    consumes : Consumes w.consumer queue

  head_in : (r : Ring A) (q : List A) → IsQueue size r q → r.head < size
  head_in r q v = omega (arith, v.head_at, v.tail_in)

  -- The copy into the array leaves the queue alone.
  IsQueue-copy :
      (r : Ring A) (q : List A) (x : A)
      → IsQueue size r q
      → IsQueue size (record r { ring = set r.ring r.head x }) q
  IsQueue-copy r q x v = record {
    storage = omega (arith, v.storage, length-set r.ring r.head x);
    tail_in = v.tail_in;
    short = v.short;
    head_at = v.head_at;
    holds =
        Holds-init size (set r.ring r.head x) r.tail x q (
          Holds-concat size r.ring r.tail r.head x q v.storage v.tail_in v.short v.head_at v.holds);
  }

  -- The store of `head_` adds the element that was copied.
  IsQueue-publish :
      (r : Ring A) (q : List A) (x : A)
      → length q + 1 < size
      → ((d : A) → get_or r.ring r.head d ≡ x)
      → IsQueue size r q
      → IsQueue size (record r { head = next_index size r.head }) (q ++ x ∷ [])
  IsQueue-publish r q x l g v = record {
    storage = v.storage;
    tail_in = v.tail_in;
    short = omega (arith, length-append q (x ∷ []));
    head_at =
        next_at size r.tail (length q) r.head v.head_at
        ∙ ap (λ k. (r.tail + k) % size) (omega (arith, length-append q (x ∷ [])));
    holds = Holds-join size r.ring r.tail r.head x q v.tail_in v.head_at g v.holds;
  }

  Consumes-concat : (c : Consumer A) (q : List A) (x : A) → Consumes c q → Consumes c (q ++ x ∷ [])
  Consumes-concat Consumer.resting q x h = h
  Consumes-concat Consumer.tested [] x h = absurd h
  Consumes-concat Consumer.tested (y ∷ q) x h = h
  Consumes-concat (Consumer.copied z) [] x h = absurd h
  Consumes-concat (Consumer.copied z) (y ∷ q) x h = h

  -- The consumer's step leaves the producer's knowledge true: the queue only gets shorter.
  Produces-tail :
      (p : Producer A) (r : Ring A) (q : List A) (x : A)
      → Produces p r (x ∷ q)
      → Produces p (record r { tail = next_index size r.tail }) q
  Produces-tail Producer.resting r q x h = h
  Produces-tail (Producer.tested y) r q x h = omega arith
  Produces-tail (Producer.copied y) r q x (l, g) = (omega arith, g)

  Consumes-tested :
      (r : Ring A) (q : List A)
      → IsQueue size r q
      → (r.tail == r.head) ≡ false
      → Consumes Consumer.tested q
  Consumes-tested r [] v e = cc (eq_iff_empty size r.tail 0 r.head v.tail_in v.short v.head_at)
  Consumes-tested r (x ∷ q) v e = tt

  Consumes-copied :
      (r : Ring A) (q : List A) (d : A)
      → IsQueue size r q
      → Consumes Consumer.tested q
      → Consumes (Consumer.copied (get_or r.ring r.tail d)) q
  Consumes-copied r [] d v h = h
  Consumes-copied r (x ∷ q) d v h = sym (v.holds.0 d)

  pop-Inv :
      (r : Ring A) (p : Producer A) (s t q : List A) (x : A)
      → IsQueue size r q
      → s ≡ t ++ q
      → Produces p r q
      → Consumes (Consumer.copied x) q
      → Inv (record {
        ring = record r { tail = next_index size r.tail };
        producer = p;
        consumer = Consumer.resting;
        sent = s;
        received = t ++ x ∷ [];
      })
  pop-Inv r p s t [] x v o hp hc = absurd hc
  pop-Inv r p s t (y ∷ q) x v o hp hc = record {
    queue = q;
    valid = IsQueue-tail size r q y v;
    order = o ∙ rw (hc, append_assoc);
    produces = Produces-tail p r q y hp;
    consumes = tt;
  }

  Step-Inv : {w v : World A} → Step size w v → Inv w → Inv v
  Step-Inv (push_test r x c s t free) i = record {
    queue = i.queue;
    valid = i.valid;
    order = i.order;
    produces = ground (
      arith,
      next-eq_iff_full size r.tail (length i.queue) r.head i.valid.tail_in i.valid.short
          i.valid.head_at,
    );
    consumes = i.consumes;
  }
  Step-Inv (push_copy r x c s t) i = record {
    queue = i.queue;
    valid = IsQueue-copy r i.queue x i.valid;
    order = i.order;
    produces = (
      i.produces,
      λ d.
          get_or-set_self r.ring r.head x d
            (omega (arith, head_in r i.queue i.valid, i.valid.storage)),
    );
    consumes = i.consumes;
  }
  Step-Inv (push_store r x c s t) i = record {
    queue = i.queue ++ x ∷ [];
    valid = IsQueue-publish r i.queue x i.produces.0 i.produces.1 i.valid;
    order = ap (λ z. z ++ x ∷ []) i.order ∙ append_assoc t i.queue (x ∷ []);
    produces = tt;
    consumes = Consumes-concat c i.queue x i.consumes;
  }
  Step-Inv (pop_test r p s t some_left) i = record {
    queue = i.queue;
    valid = i.valid;
    order = i.order;
    produces = i.produces;
    consumes = Consumes-tested r i.queue i.valid some_left;
  }
  Step-Inv (pop_copy r p s t d) i = record {
    queue = i.queue;
    valid = i.valid;
    order = i.order;
    produces = i.produces;
    consumes = Consumes-copied r i.queue d i.valid i.consumes;
  }
  Step-Inv (pop_store r p s t x) i = pop-Inv r p s t i.queue x i.valid i.order i.produces i.consumes

  Reach-Inv :
      (memory : List A)
      → 0 < size
      → size ≤ length memory
      → {w : World A} → Reach size (initial size memory) w
      → Inv w
  Reach-Inv memory h l here = record {
    queue = [];
    valid = IsQueue-initial size memory h l;
    order = refl;
    produces = tt;
    consumes = tt;
  }
  Reach-Inv memory h l (next r s) = Step-Inv s (Reach-Inv memory h l r)

  -- However the accesses of one producer and one consumer interleave, the elements handed out by `pop`
  -- are the first of those accepted by `push`, in order and each once, and fewer than `Size` of them
  -- are not yet handed out.
  pub threads_fifo :
      (memory : List A)
      → 0 < size
      → size ≤ length memory
      → {w : World A} → Reach size (initial size memory) w
      → (q : List A) × (w.sent ≡ w.received ++ q) × (length q < size)
  threads_fifo memory h l r = let i = Reach-Inv memory h l r in (i.queue, i.order, i.valid.short)

  -- the threads that are about to access the array, and the places
  abbrev pub Disjoint : Producer A → Consumer A → Ring A → Type 0
  Disjoint (Producer.tested x) Consumer.tested r = r.head ≢ r.tail
  Disjoint _ _ r = Unit {0}

  Inv-Disjoint :
      (p : Producer A) (c : Consumer A) (r : Ring A) (q : List A)
      → IsQueue size r q
      → Produces p r q
      → Consumes c q
      → Disjoint p c r
  Inv-Disjoint (Producer.tested x) Consumer.tested r [] v hp hc = absurd hc
  Inv-Disjoint (Producer.tested x) Consumer.tested r (y ∷ q) v hp hc =
      omega (
        arith,
        wrap_cases size r.tail (suc (length q)) v.tail_in (omega arith),
        v.head_at,
        v.tail_in,
      )
  Inv-Disjoint (Producer.tested x) Consumer.resting r q v hp hc = tt
  Inv-Disjoint (Producer.tested x) (Consumer.copied y) r q v hp hc = tt
  Inv-Disjoint Producer.resting c r q v hp hc = tt
  Inv-Disjoint (Producer.copied x) c r q v hp hc = tt

  -- Where both threads are about to access the array, they access different places.
  pub threads_race_free :
      (memory : List A)
      → 0 < size
      → size ≤ length memory
      → {w : World A} → Reach size (initial size memory) w
      → Disjoint w.producer w.consumer w.ring
  threads_race_free memory h l {w} r =
      let i = Reach-Inv memory h l r in
      Inv-Disjoint w.producer w.consumer w.ring i.queue i.valid i.produces i.consumes
