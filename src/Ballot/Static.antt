-- ===== src/Ballot/Static.antt =====
-- ballot_box/src/main.rs: `static_handler`, with the parts of `std::path` that it uses. The embedded
-- files (crate `rust_embed`) and the table of MIME types (crate `mime_guess`) are arguments.
pub mod Extension
use managed_linux_democracy.Prelude.{
  ℕ, ◌≡◌, ◌≢◌, refl, ap, ◌∙◌, arith, if◌then◌else◌, eqb, ◌==◌, ◌||◌, Bool, true, false, List, [],
  ◌∷◌, ◌++◌, All, Option, none, some,
}
use managed_linux_democracy.Prelude.Text.{Text, codes, text_eq, text_eqb_iff}
use managed_linux_democracy.Ballot.State.{StatusCode, not_found, ok_status}

pub cons_first : ℕ → List Text → List Text
cons_first c [] = (c ∷ []) ∷ []
cons_first c (part ∷ parts) = (c ∷ part) ∷ parts

-- A path's parts between slashes.
pub split_slash : Text → List Text
unfolding cons_first
split_slash [] = [] ∷ []
split_slash (c ∷ s) = if eqb c b'/' then [] ∷ split_slash s else cons_first c (split_slash s)

-- Parts that are empty or `.` are no components; after `..` there is no name.
pub last_name : List Text → Option Text → Option Text
last_name [] found = found
last_name (part ∷ parts) found = last_name parts (
    if part == codes "" || part == codes "."
    then found
    else if part == codes ".."
    then none
    else some part)

-- `Path::file_name`
unfoldable pub file_name : Text → Option Text
unfolding split_slash last_name
file_name path = last_name (split_slash path) none

-- The text before its last dot and the text behind it.
pub at_last_dot : Text → Option (Text × Text)
at_last_dot [] = none
at_last_dot (c ∷ s) = elim (at_last_dot s) [
  | some (before, after) ↦ some (c ∷ before, after)
  | none ↦ if eqb c b'.' then some ([], s) else none
]

-- A dot at the front of a name begins no extension.
pub behind_stem : Option (Text × Text) → Option Text
behind_stem none = none
behind_stem (some ([], after)) = none
behind_stem (some (c ∷ before, after)) = some after

pub name_extension : Option Text → Option Text
unfolding at_last_dot behind_stem
name_extension none = none
name_extension (some name) = behind_stem (at_last_dot name)

-- `Path::extension`
unfoldable pub extension : Text → Option Text
unfolding file_name name_extension
extension path = name_extension (file_name path)

pub record Served (Content : Type 0) : Type 0 where
  pub status : StatusCode
  pub content_type : Text
  pub body : Content

abbrev pub index_or : Text → Text
index_or [] = codes "index.html"
index_or (c ∷ path) = c ∷ path

abbrev pub or_txt : Option Text → Text
or_txt none = codes "txt"
or_txt (some ext) = ext

module _ {Content : Type 0} (embedded : Text → Option Content) (first_or_text_plain : Text → Text)
    (missing : Content) where
  -- `missing` is the page of the 404 reply.
  unfoldable pub static_handler : Text → Served Content
  static_handler requested =
      let path = index_or requested in
      elim (embedded path) [
        | some content ↦ record {
          status = ok_status;
          content_type = first_or_text_plain (or_txt (extension path));
          body = content;
        }
        | none ↦ record {
          status = not_found;
          content_type = codes "text/html; charset=utf-8";
          body = missing;
        }
      ]
