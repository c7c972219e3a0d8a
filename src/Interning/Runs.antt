-- ===== src/Interning/Runs.antt =====
-- Runs of `intern`, src/arrow_lite/key.rs, on the values of its documentation.
use tally_db.Base.{ℕ, ◌≡◌, refl, ◌↔◌, some, [], ◌∷◌, ok}
use tally_db.Column.{Text, text_eq, Dictionary, dictionary_len, dictionary_value}
use tally_db.Interning.{new_dictionary, lookup_code, add_value, intern}
use tally_db.Interning.Codes.{new_dictionary-IsDictionary, intern_lem, intern-intern}

-- "AAPL" and "MSFT".
abbrev aapl : Text
aapl = 65 ∷ 65 ∷ 80 ∷ 76 ∷ []

abbrev msft : Text
msft = 77 ∷ 83 ∷ 70 ∷ 84 ∷ []

abbrev one_value : Dictionary
one_value = record { offsets = 0 ∷ 4 ∷ []; bytes = aapl; index = (aapl, 0) ∷ [] }

abbrev two_values : Dictionary
two_values = record {
  offsets = 0 ∷ 4 ∷ 8 ∷ [];
  bytes = 65 ∷ 65 ∷ 80 ∷ 76 ∷ 77 ∷ 83 ∷ 70 ∷ 84 ∷ [];
  index = (msft, 1) ∷ (aapl, 0) ∷ [];
}

first_interned : intern new_dictionary aapl ≡ ok (one_value, 0)
unfolding intern new_dictionary lookup_code add_value dictionary_len
first_interned = refl

second_interned : intern one_value msft ≡ ok (two_values, 1)
unfolding intern lookup_code add_value dictionary_len text_eq
second_interned = refl

interned_again : intern two_values aapl ≡ ok (two_values, 0)
unfolding intern lookup_code text_eq
interned_again = refl

intern_lem_example :
    (dictionary_value one_value 0 ≡ some aapl)
    × ((i : ℕ) (w : Text)
        → dictionary_value new_dictionary i ≡ some w
        → dictionary_value one_value i ≡ some w)
intern_lem_example =
    intern_lem new_dictionary [] new_dictionary-IsDictionary aapl one_value 0 first_interned

intern-intern_example : (◌≡◌ {A = ℕ} 0 1) ↔ (aapl ≡ msft)
intern-intern_example =
    intern-intern new_dictionary [] aapl msft one_value two_values 0 1 new_dictionary-IsDictionary
      first_interned second_interned
