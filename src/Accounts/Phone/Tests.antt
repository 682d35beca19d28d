-- ===== src/Accounts/Phone/Tests.antt =====
-- Runs of `_clean_phone`, and the theorems at concrete inputs.
use Prim.Native.Char.{code}
use Prim.Native.String.{◌++◌}
use boutique_backend.Prelude.{◌≡◌, refl, none, some, ◌==◌, ℕ_eq, leb, ◌&&◌}
use boutique_backend.Accounts.Phone.{Classes, clean_phone, read_registration}
use boutique_backend.Accounts.Phone.Spellings.{clean_phone-local}

program : Unit {0}
unfolding clean_phone read_registration
program = tt

abbrev ascii : Classes
ascii = record { is_space = λ c. code c == 32; is_digit = λ c. leb 48 (code c) && leb (code c) 57 }

run-clean_phone : clean_phone ascii "(078) 812-34 56" ≡ some "+250788123456"
unfolding program
run-clean_phone = refl

run-local : clean_phone ascii "078 812 3456" ≡ some "+250788123456"
unfolding program
run-local = refl

run-read_registration :
    read_registration
      (λ e. some e)
      ascii
      (record {
        name = "Aline";
        email = "a@example.com";
        phone_number = "0588123456";
        password = "x";
      })
    ≡ none
unfolding program
run-read_registration = refl

clean_phone-local_example :
    clean_phone ascii ("07" ++ "8 812 3456") ≡ clean_phone ascii ("+2507" ++ "8 812 3456")
clean_phone-local_example = clean_phone-local ascii "8 812 3456" refl refl
