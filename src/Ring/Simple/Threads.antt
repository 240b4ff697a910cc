-- ===== src/Ring/Simple/Threads.antt =====
-- The same two functions as one producer and one consumer that run at the same time. A step is one
-- access to what they share; the accesses take place in one order, as the acquire and release orders
-- of the source ensure for a store and the load that reads it.
use my_streamer.Prelude.{ℕ, false, List, [], ◌∷◌, ◌++◌, ◌≡◌, ◌==◌, get_or, set}
use my_streamer.Ring.Simple.{Ring, next_index, empty_ring}
use my_streamer.Ring.Simple.Refine.{}

-- Where `push(value)` stands: not called, behind the test of `tail_`, behind the copy into the array.
pub data Producer (A : Type 0) : Type 0 where
  resting : Producer A
  tested : A → Producer A
  copied : A → Producer A

-- Where `pop` stands: not called, behind the test of `head_`, behind the copy out of the array.
pub data Consumer (A : Type 0) : Type 0 where
  resting : Consumer A
  tested : Consumer A
  copied : A → Consumer A

-- The shared ring and both threads, with the elements that `push` has accepted and `pop` handed out,
-- in order.
pub record World (A : Type 0) : Type 0 where
  pub ring : Ring A
  pub producer : Producer A
  pub consumer : Consumer A
  pub sent : List A
  pub received : List A

module _ {A : Type 0} (size : ℕ) where
  -- A refused call is a step from the test back to `resting`, and changes nothing that is shared.
  pub data Step : World A → World A → Type 0 where
    push_test :
        (r : Ring A) (x : A) (c : Consumer A) (s t : List A)
        → (next_index size r.head == r.tail) ≡ false
        → Step
            (record { ring = r; producer = Producer.resting; consumer = c; sent = s; received = t })
            (record {
              ring = r;
              producer = Producer.tested x;
              consumer = c;
              sent = s;
              received = t;
            })
    push_copy :
        (r : Ring A) (x : A) (c : Consumer A) (s t : List A)
        → Step
            (record {
              ring = r;
              producer = Producer.tested x;
              consumer = c;
              sent = s;
              received = t;
            })
            (record {
              ring = record r { ring = set r.ring r.head x };
              producer = Producer.copied x;
              consumer = c;
              sent = s;
              received = t;
            })
    push_store :
        (r : Ring A) (x : A) (c : Consumer A) (s t : List A)
        → Step
            (record {
              ring = r;
              producer = Producer.copied x;
              consumer = c;
              sent = s;
              received = t;
            })
            (record {
              ring = record r { head = next_index size r.head };
              producer = Producer.resting;
              consumer = c;
              sent = s ++ x ∷ [];
              received = t;
            })
    pop_test :
        (r : Ring A) (p : Producer A) (s t : List A)
        → (r.tail == r.head) ≡ false
        → Step
            (record { ring = r; producer = p; consumer = Consumer.resting; sent = s; received = t })
            (record { ring = r; producer = p; consumer = Consumer.tested; sent = s; received = t })
    pop_copy :
        (r : Ring A) (p : Producer A) (s t : List A) (d : A)
        → Step
            (record { ring = r; producer = p; consumer = Consumer.tested; sent = s; received = t })
            (record {
              ring = r;
              producer = p;
              consumer = Consumer.copied (get_or r.ring r.tail d);
              sent = s;
              received = t;
            })
    pop_store :
        (r : Ring A) (p : Producer A) (s t : List A) (x : A)
        → Step
            (record {
              ring = r;
              producer = p;
              consumer = Consumer.copied x;
              sent = s;
              received = t;
            })
            (record {
              ring = record r { tail = next_index size r.tail };
              producer = p;
              consumer = Consumer.resting;
              sent = s;
              received = t ++ x ∷ [];
            })

  pub data Reach (w : World A) : World A → Type 0 where
    here : Reach w w
    next : {v u : World A} → Reach w v → Step v u → Reach w u

  abbrev pub initial : List A → World A
  initial memory = record {
    ring = empty_ring memory;
    producer = Producer.resting;
    consumer = Consumer.resting;
    sent = [];
    received = [];
  }
