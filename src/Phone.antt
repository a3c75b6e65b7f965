-- ===== src/Phone.antt =====
-- backend/src/common/utils/normalize-phone.util.ts: telephone numbers compared whatever their format.
pub mod Normal
use afrique_os.Common.{
  ℕ, Bool, true, false, ◌&&◌, ◌||◌, not, List, [], ◌∷◌, leb, ◌==◌, if◌then◌else◌,
}
use afrique_os.Common.Text.{trim, is_empty, text_eq}

abbrev pub is_digit : ℕ → Bool
is_digit c = leb 48 c && leb c 57

abbrev pub is_plus : ℕ → Bool
is_plus c = c == 43

-- `replace(/[^\d+]/g, '')`
unfoldable pub keep_dialled : List ℕ → List ℕ
keep_dialled [] = []
keep_dialled (c ∷ t) = if is_digit c || is_plus c then c ∷ keep_dialled t else keep_dialled t

unfoldable pub drop_plus : List ℕ → List ℕ
drop_plus [] = []
drop_plus (c ∷ t) = if is_plus c then drop_plus t else c ∷ drop_plus t

-- `replace(/(?!^)\+/g, '')`: the first character stays, whatever it is.
unfoldable pub drop_inner_plus : List ℕ → List ℕ
unfolding drop_plus
drop_inner_plus [] = []
drop_inner_plus (c ∷ t) = c ∷ drop_plus t

unfoldable pub normalize_phone : List ℕ → List ℕ
unfolding keep_dialled drop_inner_plus
normalize_phone phone = drop_inner_plus (keep_dialled phone)

-- `variants` is the set of the trimmed and the normalised form, less what is empty.
unfoldable pub phone_match_clause : List ℕ → List ℕ → Bool
unfolding normalize_phone trim text_eq
phone_match_clause phone stored =
    let raw = trim phone in
    let normalized = normalize_phone phone in
    (not (is_empty raw) && text_eq stored raw)
    || (not (is_empty normalized) && text_eq stored normalized)
