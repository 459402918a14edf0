-- ===== src/Base/Result.antt =====
-- The error codes that the modelled functions return (wolfclu/clu_error_codes.h, and the codes of
-- wolfSSL that they pass on), and results that carry one of them. The last two are the model's own: the fuel of a loop
-- ran out, and a file is longer than an `int` can count, for which the code is not modelled.

pub data Err : Type 0 where
  fatal_error user_input_error memory_e not_compiled_in bad_func_arg input_file_error encrypt_error
        decrypt_error fread_error no_fuel beyond_int :
      Err

pub data Result {ℓ} (A : Type ℓ) : Type ℓ where
  ok : A → Result A
  err : Err → Result A
