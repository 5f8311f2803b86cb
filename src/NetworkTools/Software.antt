-- ===== src/NetworkTools/Software.antt =====
-- NetworkTools::getInstalledSoftware of networktools.h, its branches for Linux, Windows and the Mac.
-- What the script prints, what CheckSoftwares gives and the document of system_profiler are
-- arguments, and so are the functions of QString.
pub mod Listing
use ot_tcp_listener.Prelude.{
  ℕ, Bool, true, false, not, ◌&&◌, ◌||◌, List, [], ◌∷◌, ◌++◌, Option, none, some, Text, codes, ◌==◌,
  if◌then◌else◌,
}
use ot_tcp_listener.Prelude.Outcome.{Outcome, ok, ◌>>=◌}
use ot_tcp_listener.NetworkTools.{text_eq}
use ot_tcp_listener.NetworkTools.Shell.{exec_shell}

-- QJsonArray::contains of a text
unfoldable pub has_text : List Text → Text → Bool
has_text [] t = false
has_text (s ∷ softwares) t = text_eq s t || has_text softwares t

-- QString::startsWith of "#"
abbrev pub starts_with_hash : Text → Bool
starts_with_hash [] = false
starts_with_hash (c ∷ s) = c == b'#'

abbrev pub is_empty : Text → Bool
is_empty [] = true
is_empty (c ∷ s) = false

-- The condition on a piece that has been cleaned, but for `contains`.
abbrev pub is_accepted : Text → Bool
is_accepted sw = not (is_empty sw) && not (starts_with_hash sw)

abbrev pub add_software : List Text → Text → List Text
add_software softwares sw =
    if is_accepted sw && not (has_text softwares sw) then softwares ++ sw ∷ [] else softwares

-- An element of the document: isElement, and the name and the text of its first child "string".
pub record DictNode : Type 0 where
  pub is_element : Bool
  pub tag_name : Text
  pub text : Text

module _ (clean : Text → Outcome Text) where
  -- The loop over the pieces of what the script prints.
  unfoldable pub add_all : List Text → List Text → Outcome (List Text)
  add_all [] softwares = ok softwares
  add_all (sw ∷ sw_list) softwares = do sw' ← clean sw; add_all sw_list (add_software softwares sw')

  -- The branch for Linux: `remove` takes the line ends out, `split` cuts at "name=".
  unfoldable pub installed_linux :
      (Text → Text) → (Text → List Text) → Option Text → Outcome (List Text)
  installed_linux remove split script = do res ← exec_shell script; add_all (split (remove res)) []

  -- The branch for Windows.
  unfoldable pub installed_windows : List Text → Outcome (List Text)
  installed_windows [] = ok []
  installed_windows (sw ∷ sws) = do sw' ← clean sw; rest ← installed_windows sws; ok (sw' ∷ rest)

  -- The loop of the branch for the Mac, which a node with no child "string" ends.
  unfoldable pub dict_texts : List DictNode → Outcome (List Text)
  dict_texts [] = ok []
  dict_texts (elm ∷ nodes) =
      let rest = dict_texts nodes in
      let append = do sw ← clean elm.text; more ← rest; ok (sw ∷ more)
      in if elm.is_element then if is_empty elm.tag_name then ok [] else append else rest

  -- `none` is a document that setContent does not take.
  unfoldable pub installed_mac : Option (List DictNode) → Outcome (List Text)
  installed_mac none = ok []
  installed_mac (some nodes) = dict_texts nodes
