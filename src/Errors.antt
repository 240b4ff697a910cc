-- ===== src/Errors.antt =====
-- base/base_error.h and base_error.cpp: the error codes and their messages.
use my_streamer.Prelude.{ℕ, Bool, true, false, List, [], ◌∷◌, Option, get_elem?}
use my_streamer.Prelude.Text.{Text, codes}

-- `BaseErrorCode`
pub data ErrorCode : Type 0 where
  success failed null_pointer out_of_memory io_error device_not_ready : ErrorCode
  configuration_not_supported unknown_property unsupported_property : ErrorCode
  invalid_property_value read_only_property unsupported_pixel_format : ErrorCode
  image_parameters_mismatch failed_image_encoding : ErrorCode

-- `Code`
unfoldable pub code_of : ErrorCode → ℕ
code_of success = 0
code_of failed = 1
code_of null_pointer = 2
code_of out_of_memory = 3
code_of io_error = 4
code_of device_not_ready = 5
code_of configuration_not_supported = 6
code_of unknown_property = 7
code_of unsupported_property = 8
code_of invalid_property_value = 9
code_of read_only_property = 10
code_of unsupported_pixel_format = 11
code_of image_parameters_mismatch = 12
code_of failed_image_encoding = 13

-- `operator bool`
abbrev pub is_success : ErrorCode → Bool
is_success success = true
is_success _ = false

-- `ErrorMessages`
abbrev pub error_messages : List Text
error_messages =
    codes "Success"
    ∷ codes "Generic failure"
    ∷ codes "Input parameter is a null pointer"
    ∷ codes "Out of memory"
    ∷ codes "I/O error"
    ∷ codes "Device is not ready"
    ∷ codes "Configuration is not supported"
    ∷ codes "Property is not known"
    ∷ codes "Property is not supported"
    ∷ codes "Property value is not valid"
    ∷ codes "Property is read only"
    ∷ codes "Pixel format is not supported"
    ∷ codes "Parameters of images don't match"
    ∷ codes "Failed image encoding"
    ∷ []

-- `ToString`; `none` would be its branch for a code outside the table.
unfoldable pub to_string : ErrorCode → Option Text
unfolding code_of
to_string e = get_elem? error_messages (code_of e)
