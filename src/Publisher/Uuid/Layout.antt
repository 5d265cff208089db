-- ===== src/Publisher/Uuid/Layout.antt =====
-- The monitoring client accepts the ids that the publisher makes.
use Prim.Native.Char.{Char, code}
use io_t_midterm_availabilit.Base.{
  ℕ, ◌+◌, ◌/◌, ◌%◌, ◌≡◌, refl, true, none, [], ◌∷◌, either_branch, ◌==◌,
}
use io_t_midterm_availabilit.Js.Scan.{slice_to, slice_from}
use io_t_midterm_availabilit.Js.Value.{str}
use io_t_midterm_availabilit.Client.Parsers.{hex, fits_part, fits, is_uuid, tested_text}
use io_t_midterm_availabilit.Publisher.Uuid.{
  hex_char, hex_text, mark_bytes, dashed, group, generate_uuid,
}

abbrev IsHexChar : Char → Type 0
IsHexChar c = fits_part hex (code c) ≡ true

hex_char-IsHexChar : (n : ℕ) → IsHexChar (hex_char n)
unfolding hex_char
hex_char-IsHexChar n = either_branch IsHexChar (n == 0) "0" _ refl (
    either_branch IsHexChar (n == 1) "1" _ refl (
      either_branch IsHexChar (n == 2) "2" _ refl (
        either_branch IsHexChar (n == 3) "3" _ refl (
          either_branch IsHexChar (n == 4) "4" _ refl (
            either_branch IsHexChar (n == 5) "5" _ refl (
              either_branch IsHexChar (n == 6) "6" _ refl (
                either_branch IsHexChar (n == 7) "7" _ refl (
                  either_branch IsHexChar (n == 8) "8" _ refl (
                    either_branch IsHexChar (n == 9) "9" _ refl (
                      either_branch IsHexChar (n == 10) "a" _ refl (
                        either_branch IsHexChar (n == 11) "b" _ refl (
                          either_branch IsHexChar (n == 12) "c" _ refl (
                            either_branch IsHexChar (n == 13) "d" _ refl
                              (either_branch IsHexChar (n == 14) "e" _ refl (refl)))))))))))))))

-- Without `randomUUID`, an id made from sixteen bytes has the form that the client's parser asks
-- for, so that no message is dropped for its id.
pub generate_uuid-is_uuid :
    (a b c d e f g h i j k l m n o p : ℕ)
    → is_uuid (
        str
          (generate_uuid none (a ∷ b ∷ c ∷ d ∷ e ∷ f ∷ g ∷ h ∷ i ∷ j ∷ k ∷ l ∷ m ∷ n ∷ o ∷ p ∷ [])))
      ≡ true
unfolding generate_uuid is_uuid fits tested_text dashed slice_to slice_from hex_text mark_bytes
    group
generate_uuid-is_uuid a b c d e f g h i j k l m n o p =
    rw
      (
        hex_char-IsHexChar (a / 16),
        hex_char-IsHexChar (a % 16),
        hex_char-IsHexChar (b / 16),
        hex_char-IsHexChar (b % 16),
        hex_char-IsHexChar (c / 16),
        hex_char-IsHexChar (c % 16),
        hex_char-IsHexChar (d / 16),
        hex_char-IsHexChar (d % 16),
        hex_char-IsHexChar (e / 16),
        hex_char-IsHexChar (e % 16),
        hex_char-IsHexChar (f / 16),
        hex_char-IsHexChar (f % 16),
        hex_char-IsHexChar ((g % 16 + 64) / 16),
        hex_char-IsHexChar ((g % 16 + 64) % 16),
        hex_char-IsHexChar (h / 16),
        hex_char-IsHexChar (h % 16),
        hex_char-IsHexChar ((i % 64 + 128) / 16),
        hex_char-IsHexChar ((i % 64 + 128) % 16),
        hex_char-IsHexChar (j / 16),
        hex_char-IsHexChar (j % 16),
        hex_char-IsHexChar (k / 16),
        hex_char-IsHexChar (k % 16),
        hex_char-IsHexChar (l / 16),
        hex_char-IsHexChar (l % 16),
        hex_char-IsHexChar (m / 16),
        hex_char-IsHexChar (m % 16),
        hex_char-IsHexChar (n / 16),
        hex_char-IsHexChar (n % 16),
        hex_char-IsHexChar (o / 16),
        hex_char-IsHexChar (o % 16),
        hex_char-IsHexChar (p / 16),
        hex_char-IsHexChar (p % 16),
      )
      refl
