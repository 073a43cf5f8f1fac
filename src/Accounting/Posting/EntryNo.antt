-- ===== src/Accounting/Posting/EntryNo.antt =====
-- `formatEntryNo` (src/modules/accounting/accounting-posting.ts). The sequence number comes from an
-- integer column, so the test for an integer always passes.
use ume_pms_v2_backend.Prelude.{
  ℕ, ◌≡◌, refl, Bool, true, not, ◌&&◌, ◌||◌, [], ◌∷◌, ◌++◌, Text, Result, ok, ◌>>◌, throw_if, leb,
  ltb, ◌==◌, is_digit, is_capital, length, decimal, pad_zeros, read_from, read-pad_zeros, >>-eq-ok,
  ok-injective, ◌∙◌, subst, NoDash, pad_zeros-NoDash, if◌then◌else◌, ◌*◌, ◌+◌, ◌-◌,
}
use ume_pms_v2_backend.Accounting.Posting.Types.{PostingError, invalid_prefix, invalid_sequence}

abbrev pub is_prefix_char : ℕ → Bool
is_prefix_char c = is_capital c || is_digit c || (c == 45)

unfoldable pub all_prefix_chars : Text → Bool
all_prefix_chars [] = true
all_prefix_chars (c ∷ s) = is_prefix_char c && all_prefix_chars s

-- `/^[A-Z0-9-]{1,10}$/`
unfoldable pub is_entry_prefix : Text → Bool
unfolding all_prefix_chars
is_entry_prefix s = leb 1 (length s) && leb (length s) 10 && all_prefix_chars s

unfoldable pub format_entry_no : Text → ℕ → ℕ → Result PostingError Text
format_entry_no prefix year seq = do
  throw_if (not (is_entry_prefix prefix)) invalid_prefix
  throw_if (ltb seq 1) invalid_sequence
  ok (prefix ++ (45 ∷ (decimal year ++ (45 ∷ pad_zeros 5 (decimal seq)))))

format_entry_no-eq-ok :
    (prefix : Text) (year seq : ℕ) {s : Text}
    → format_entry_no prefix year seq ≡ ok s
    → prefix ++ (45 ∷ (decimal year ++ (45 ∷ pad_zeros 5 (decimal seq)))) ≡ s
unfolding format_entry_no
format_entry_no-eq-ok prefix year seq h =
    let (_, h1) = >>-eq-ok (throw_if (not (is_entry_prefix prefix)) invalid_prefix) _ h in
    let (_, h2) = >>-eq-ok (throw_if (ltb seq 1) invalid_sequence) _ h1 in ok-injective h2

-- The number behind the last dash.
abbrev pub seq_from : ℕ → Text → ℕ
seq_from acc [] = acc
seq_from acc (c ∷ s) = seq_from (if c == 45 then 0 else acc * 10 + (c - 48)) s

abbrev pub seq_of : Text → ℕ
seq_of s = seq_from 0 s

seq_from-dash : (acc : ℕ) (x d : Text) → seq_from acc (x ++ (45 ∷ d)) ≡ seq_from 0 d
seq_from-dash acc [] d = refl
seq_from-dash acc (c ∷ x) d = seq_from-dash (if c == 45 then 0 else acc * 10 + (c - 48)) x d

seq_from-digits : (acc : ℕ) (d : Text) → NoDash d → seq_from acc d ≡ read_from acc d
seq_from-digits acc [] h = refl
seq_from-digits acc (c ∷ d) h = rw h.0 (seq_from-digits (acc * 10 + (c - 48)) d h.1)

-- The sequence number can be read back from the official number, whatever the prefix and the year.
pub seq_of-format_entry_no :
    (prefix : Text) (year seq : ℕ) {s : Text}
    → format_entry_no prefix year seq ≡ ok s
    → seq_of s ≡ seq
seq_of-format_entry_no prefix year seq h =
    let digits : Text = pad_zeros 5 (decimal seq) in
    subst (λ t. seq_of t ≡ seq) (format_entry_no-eq-ok prefix year seq h)
      (seq_from-dash 0 prefix (decimal year ++ (45 ∷ digits))
        ∙ (seq_from-dash 0 (decimal year) digits
            ∙ (seq_from-digits 0 digits (pad_zeros-NoDash 5 seq) ∙ read-pad_zeros 5 seq)))
