-- ===== src/Engine/Reporter.antt =====
-- logic/error_reporter.py: a dict from transaction ids to reasons, in insertion order.
use portfolio_analytics_syst.Prelude.{
  String, Bool, true, false, ◌||◌, List, [], ◌∷◌, ◌≡◌, refl, arith, str_eq, str_eq_iff, occurs_in,
  concat, if◌then◌else◌,
}

pub record ErroredTransaction : Type 0 where
  pub transaction_id : String
  pub error_reason : String

abbrev pub Reporter : Type 0
Reporter = List ErroredTransaction

-- A reason that the text already holds is not added again.
extend_reason : String → String → String
extend_reason old new = if occurs_in new old then old else concat (old ∷ "; " ∷ new ∷ [])

unfoldable pub add_error : String → String → Reporter → Reporter
unfolding extend_reason
add_error tid reason [] = record { transaction_id = tid; error_reason = reason } ∷ []
add_error tid reason (e ∷ es) =
    if str_eq tid e.transaction_id
    then record e { error_reason = extend_reason e.error_reason reason } ∷ es
    else e ∷ add_error tid reason es

-- The values of the dict.
abbrev pub get_errors : Reporter → List ErroredTransaction
get_errors r = r

unfoldable pub has_errors : Reporter → Bool
has_errors [] = false
has_errors (e ∷ es) = true

unfoldable pub has_errors_for : String → Reporter → Bool
has_errors_for tid [] = false
has_errors_for tid (e ∷ es) = str_eq tid e.transaction_id || has_errors_for tid es

abbrev pub clear : Reporter
clear = []

-- A reported id has an error, and `add_error` never removes the error of another.
pub has_errors_for-add_error :
    (j tid reason : String) (r : Reporter)
    → has_errors_for j (add_error tid reason r) ≡ (str_eq j tid || has_errors_for j r)
unfolding has_errors_for add_error
has_errors_for-add_error j tid reason [] = ground arith
has_errors_for-add_error j tid reason (e ∷ es) = ground (
  arith,
  has_errors_for-add_error j tid reason es,
  str_eq_iff tid e.transaction_id,
  str_eq_iff j e.transaction_id,
  str_eq_iff j tid,
)

-- Each id is listed once.
abbrev pub HasUniqueIds : Reporter → Type 0
HasUniqueIds [] = Unit
HasUniqueIds (e ∷ es) = (has_errors_for e.transaction_id es ≡ false) × HasUniqueIds es

-- Reporting an error keeps one entry for each transaction id.
pub add_error-HasUniqueIds :
    (tid reason : String) (r : Reporter) → HasUniqueIds r → HasUniqueIds (add_error tid reason r)
unfolding add_error
add_error-HasUniqueIds tid reason [] h = (unfold has_errors_for in refl, tt)
add_error-HasUniqueIds tid reason (e ∷ es) (fresh, u) = ground (
  arith,
  add_error-HasUniqueIds tid reason es u,
  has_errors_for-add_error e.transaction_id tid reason es,
  str_eq_iff tid e.transaction_id,
  str_eq_iff e.transaction_id tid,
)
