-- ===== src/Interning.antt =====
-- The writing side of `Dictionary`, src/arrow_lite/key.rs: `new`, `intern` and `code_of`. A value is
-- interned once; the fallible conversions to `u32` and `i32` panic where they fail.
pub mod Values
pub mod Codes
mod Runs
use tally_db.Base.{ℕ, ◌+◌, ◌-◌, ◌^◌, Option, none, some, List, [], ◌∷◌, ◌++◌}
use tally_db.Base.{length, ltb, if◌then◌else◌, Result, ok, err}
use tally_db.Column.{Text, text_eq, Dictionary, dictionary_len, Fault, panic}

unfoldable pub new_dictionary : Dictionary
new_dictionary = record { offsets = 0 ∷ []; bytes = []; index = [] }

-- `HashMap::get`
unfoldable pub lookup_code : List (Text × ℕ) → Text → Option ℕ
lookup_code [] value = none
lookup_code ((known, code) ∷ index) value =
    if text_eq known value then some code else lookup_code index value

pub code_of : Dictionary → Text → Option ℕ
code_of d value = lookup_code d.index value

-- The rest of `intern` for a value that is not in the index.
unfoldable pub add_value : Dictionary → Text → Result Fault (Dictionary × ℕ)
add_value d value =
    let code = dictionary_len d in
    let end = length d.bytes + length value in
    if ltb code (2 ^ 32)
    then (if ltb end (2 ^ 31)
        then ok (
          record {
            offsets = d.offsets ++ (end ∷ []);
            bytes = d.bytes ++ value;
            index = (value, code) ∷ d.index;
          },
          code,
        )
        else err panic)
    else err panic

unfoldable pub intern : Dictionary → Text → Result Fault (Dictionary × ℕ)
intern d value = elim (lookup_code d.index value) [
  | some code ↦ ok (d, code)
  | none ↦ add_value d value
]
