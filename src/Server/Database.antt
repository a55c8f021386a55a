-- ===== src/Server/Database.antt =====
-- The database of server/src/db.rs, with the rows of server/src/models.rs: each table is the list
-- of its rows, and a query is what its SQL text says. A statement that would break a key of a
-- table fails and changes nothing. The order of the rows means nothing. Other failures of the database are not modelled.
pub mod Commands
pub mod Xattributes
pub mod Users
pub mod Tokens
pub mod Login
use remote_file_system.Prelude.{ℕ, Bool, not, ◌&&◌, true, false, List, [], ◌∷◌, if◌then◌else◌}
use remote_file_system.Paths.{Text, Text-discrete}
use remote_file_system.Server.Errors.{DatabaseError, query_error}
use mathlib.Core.Logic.{ite}

pub record User : Type 0 where
  pub user_id : ℕ
  pub group_id : ℕ
  pub username : Text
  pub password : Text

pub record RevokedToken : Type 0 where
  pub user_id : ℕ
  pub token_id : Text
  pub expiration_time : ℕ

pub record XattributeRow : Type 0 where
  pub path : Text
  pub name : Text
  pub xattributes : List ℕ

pub record Database : Type 0 where
  pub users : List User
  pub revoked_tokens : List RevokedToken
  pub xattributes : List XattributeRow

pub data Result {ℓ} (A : Type ℓ) : Type ℓ where
  ok : A → Result A
  err : DatabaseError → Result A

-- A query's result and the database after it.
abbrev pub Query : Type 0 → Type 0
Query A = Database → Result A × Database

abbrev pub same_text : Text → Text → Bool
same_text a b = ite (Text-discrete a b) true false

module _ {A : Type 0} where
  -- `SELECT … WHERE`
  abbrev pub select : (A → Bool) → List A → List A
  select test [] = []
  select test (r ∷ rs) = if test r then r ∷ select test rs else select test rs

  -- `DELETE … WHERE`
  abbrev pub delete : (A → Bool) → List A → List A
  delete test [] = []
  delete test (r ∷ rs) = if test r then delete test rs else r ∷ delete test rs

  -- `UPDATE … SET … WHERE`
  abbrev pub update : (A → Bool) → (A → A) → List A → List A
  update test set [] = []
  update test set (r ∷ rs) = (if test r then set r else r) ∷ update test set rs

  abbrev pub any : (A → Bool) → List A → Bool
  any test [] = false
  any test (r ∷ rs) = if test r then true else any test rs
