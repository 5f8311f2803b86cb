-- ===== src/Qt.antt =====
-- The operations of Qt's QString, QStringList and QByteArray that the program calls. Qt is not part
-- of the repository: its operations are parameters, with what its manual says of them as laws.
pub mod Sample
use ot_tcp_listener.Prelude.{ℕ, List, [], ◌∷◌, ◌++◌, ◌≡◌, Bytes, Text}
use ot_tcp_listener.Prelude.Int.{ℤ}

pub record Qt : Type 0 where
  -- QString::number(int)
  pub number : ℤ → Text
  -- QString::arg, which fills the one place %1 of the text
  pub arg : Text → Text → Text
  -- QByteArray::toHex with a separator
  pub to_hex : Bytes → ℕ → Text
  -- QStringList::join
  pub join : List Text → Text → Text
  -- QString::split
  pub split : Text → Text → List Text
  pub join-nil : (sep : Text) → join [] sep ≡ []
  pub join-singleton : (x sep : Text) → join (x ∷ []) sep ≡ x
  pub join-cons :
      (x y : Text) (rest : List Text) (sep : Text)
      → join (x ∷ y ∷ rest) sep ≡ x ++ (sep ++ join (y ∷ rest) sep)
