-- ===== src/Tests/Hash.antt =====
-- The digest of a file under a hash function that gives its length, and the command line
-- `wolfssl -hash -sha256 -in a`.
use wolf_clu.Base.{
  ℕ, ◌+◌, Bool, true, false, List, [], ◌∷◌, ◌++◌, Option, none, some, ◌≡◌, ap, ◌∙◌, arith, length,
  length-append,
}
use wolf_clu.Base.Result.{ok}
use wolf_clu.Text.{Bytes, codes}
use wolf_clu.Args.{Argv, events}
use wolf_clu.Crypto.Stream.{concat}
use wolf_clu.Hash.{Hasher, hash_sha256, hash}
use wolf_clu.Rand.Output.{hex_encode, hex_char}
use wolf_clu.Hash.Digest.{absorb, Digests, sha256, hash-digest}
use wolf_clu.Hash.Setup.{DigestSizes, HashPlan, hash_options, hash_setup}
use wolf_clu.Hash.Setup.Chosen.{Planned, hash_setup-Planned}

abbrev counter : Hasher
counter = record {
  State = ℕ;
  init = λ t. some 0;
  update = λ n s. some (n + length s);
  final = λ n. some (n ∷ []);
  digest_size = λ t. 1;
  max_digest_size = 64;
}

absorb-counter :
    (n : ℕ) (cs : List Bytes) → absorb counter n cs ≡ some ((n + length (concat cs)) ∷ [])
absorb-counter n [] = let e : n ≡ n + 0 = omega arith in ap (λ k. some (k ∷ [])) e
absorb-counter n (c ∷ cs) =
    let e : n + length c + length (concat cs) ≡ n + length (c ++ concat cs) =
      omega (arith, length-append {0} c (concat cs)) in
    absorb-counter (n + length c) cs ∙ ap (λ k. some (k ∷ [])) e

absorb-counter-zero : (cs : List Bytes) → absorb counter 0 cs ≡ some (length (concat cs) ∷ [])
absorb-counter-zero cs =
    let e : 0 + length (concat cs) ≡ length (concat cs) = omega arith in
    absorb-counter 0 cs ∙ ap (λ k. some (k ∷ [])) e

abbrev counter_laws : Digests counter
counter_laws = record {
  digest = λ t text. length text ∷ [];
  digests = λ t cs s h. absorb-counter-zero cs;
  sized = λ t s. omega arith;
}

abbrev no_code : ℕ → Bytes → Option Bytes
no_code n text = none

bozeman_counted :
    hash counter no_code no_code false true (codes "sha256") 1 (codes "Bozeman")
    ≡ ok (codes "07" ++ 10 ∷ [])
unfolding hex_encode hex_char
bozeman_counted =
    hash-digest counter counter_laws no_code no_code false true (codes "sha256") hash_sha256 1
      (codes "Bozeman") sha256

abbrev sizes : DigestSizes
sizes = record {
  md5_size = 16;
  sha_size = 20;
  sha256_size = 32;
  sha384_size = 48;
  sha512_size = 64;
}

abbrev any : Bytes → Bool
any name = true

abbrev hash_argv : Argv
hash_argv =
    some (codes "wolfssl")
    ∷ some (codes "hash")
    ∷ some (codes "-sha256")
    ∷ some (codes "-in")
    ∷ some (codes "a")
    ∷ []

sha256_plan :
    (plan : HashPlan) × (hash_setup sizes any any hash_argv ≡ some plan)
    × Planned sizes any any (events hash_argv 1 hash_options) plan
sha256_plan = hash_setup-Planned sizes any any hash_argv
