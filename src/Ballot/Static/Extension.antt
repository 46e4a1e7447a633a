-- ===== src/Ballot/Static/Extension.antt =====
-- ballot_box/src/main.rs: the file type with which `static_handler` answers.
use managed_linux_democracy.Prelude.{
  ℕ, ◌≡◌, ◌≢◌, refl, ap, ◌∙◌, arith, eqb, Bool-cases, inl, inr, List, [], ◌∷◌, ◌++◌, All,
  All-append, Option, none, some,
}
use managed_linux_democracy.Prelude.Text.{Text, codes, text_eq, text_eqb_iff}
use managed_linux_democracy.Ballot.State.{not_found, ok_status}
use managed_linux_democracy.Ballot.Static.{
  cons_first, split_slash, last_name, file_name, at_last_dot, behind_stem, name_extension,
  extension, Served, static_handler, index_or,
}

-- The character stands nowhere in the text.
abbrev pub Without : ℕ → Text → Type 0
Without c s = All (λ d. d ≢ c) s

split_slash-name : (name : Text) → Without b'/' name → split_slash name ≡ name ∷ []
unfolding split_slash cons_first
split_slash-name [] h = refl
split_slash-name (c ∷ name) h = ground (arith, split_slash-name name h.1)

-- There is a first part.
split_slash-cons : (s : Text) → (part : Text) × (parts : List Text) × (split_slash s ≡ part ∷ parts)
unfolding split_slash cons_first
split_slash-cons [] = ([], [], refl)
split_slash-cons (c ∷ s) = elim (Bool-cases (eqb c b'/')) [
  | inl slash ↦ ([], split_slash s, ground arith)
  | inr other ↦ let (part, parts, e) = split_slash-cons s in (c ∷ part, parts, ground arith)
]

split_slash-append :
    (dir name : Text) → split_slash (dir ++ b'/' ∷ name) ≡ split_slash dir ++ split_slash name
unfolding split_slash cons_first
split_slash-append [] name = refl
split_slash-append (c ∷ dir) name =
    let (part, parts, e) = split_slash-cons dir in
    let ih : split_slash (dir ++ b'/' ∷ name) ≡ (part ∷ parts) ++ split_slash name =
      split_slash-append dir name ∙ ap (λ x. x ++ split_slash name) e in
    ground (arith, ih, e)

-- A name that is neither empty nor `.` nor `..`.
abbrev IsName : Text → Type 0
IsName name = (name ≢ []) × (name ≢ codes ".") × (name ≢ codes "..")

last_name-last :
    (parts : List Text) (name : Text) (found : Option Text)
    → IsName name
    → last_name (parts ++ name ∷ []) found ≡ some name
unfolding last_name
last_name-last [] name found h =
    ground
      (arith, text_eqb_iff name [], text_eqb_iff name (codes "."), text_eqb_iff name (codes ".."))
last_name-last (part ∷ parts) name found h = last_name-last parts name _ h

at_last_dot-none : (s : Text) → Without b'.' s → at_last_dot s ≡ none
unfolding at_last_dot
at_last_dot-none [] h = refl
at_last_dot-none (c ∷ s) h = ground (arith, at_last_dot-none s h.1)

at_last_dot-append :
    (stem ext : Text) → Without b'.' ext → at_last_dot (stem ++ b'.' ∷ ext) ≡ some (stem, ext)
unfolding at_last_dot
at_last_dot-append [] ext h = ground (arith, at_last_dot-none ext h)
at_last_dot-append (c ∷ stem) ext h = ground (arith, at_last_dot-append stem ext h)

append-IsName : (c d : ℕ) (stem ext : Text) → IsName ((c ∷ stem) ++ b'.' ∷ d ∷ ext)
append-IsName c d [] ext = ground arith
append-IsName c d (x ∷ []) ext = ground arith
append-IsName c d (x ∷ y ∷ stem) ext = ground arith

-- A name at the top of the tree, or under a directory.
abbrev pub path_of : Option Text → Text → Text
path_of none name = name
path_of (some dir) name = dir ++ b'/' ∷ name

index_or-path_of :
    (dir : Option Text) (c : ℕ) (name : Text)
    → index_or (path_of dir (c ∷ name)) ≡ path_of dir (c ∷ name)
index_or-path_of none c name = refl
index_or-path_of (some []) c name = refl
index_or-path_of (some (x ∷ dir)) c name = refl

file_name-path_of :
    (dir : Option Text) (name : Text)
    → Without b'/' name
    → IsName name
    → file_name (path_of dir name) ≡ some name
unfolding file_name
file_name-path_of none name flat named =
    ap (λ parts. last_name parts none) (split_slash-name name flat)
    ∙ last_name-last [] name none named
file_name-path_of (some dir) name flat named =
    ap (λ parts. last_name parts none)
      (split_slash-append dir name ∙ ap (λ x. split_slash dir ++ x) (split_slash-name name flat))
    ∙ last_name-last (split_slash dir) name none named

-- The reply for a file that is embedded or not, with the type that it has if it is.
abbrev pub served_as : {Content : Type 0} → Option Content → Text → Content → Served Content
served_as none type missing = record {
  status = not_found;
  content_type = codes "text/html; charset=utf-8";
  body = missing;
}
served_as (some content) type missing = record {
  status = ok_status;
  content_type = type;
  body = content;
}

-- `stem.ext` or `dir/stem.ext`, with a stem and an extension that are not empty.
module _ (dir : Option Text) (c d : ℕ) (stem ext : Text) (stem_flat : Without b'/' (c ∷ stem))
    (ext_flat : Without b'/' (d ∷ ext)) (ext_whole : Without b'.' (d ∷ ext)) where
  abbrev path : Text
  path = path_of dir ((c ∷ stem) ++ b'.' ∷ d ∷ ext)

  extension-path_of : extension path ≡ some (d ∷ ext)
  unfolding extension
  extension-path_of =
      ap name_extension (
        file_name-path_of dir ((c ∷ stem) ++ b'.' ∷ d ∷ ext)
          (All-append (λ x. x ≢ b'/') (c ∷ stem) (b'.' ∷ d ∷ ext) stem_flat (omega arith, ext_flat))
          (append-IsName c d stem ext))
      ∙ ap behind_stem (at_last_dot-append (c ∷ stem) (d ∷ ext) ext_whole)

  -- A request for `stem.ext` or `dir/stem.ext`, where neither the stem nor the extension is empty,
  -- neither has a slash, and the extension has no dot: if the file is embedded the reply has status
  -- 200, the type that the table gives to this very extension, and the file's content; otherwise it
  -- is the 404 page.
  pub static_handler-path_of :
      {Content : Type 0} (embedded : Text → Option Content) (first_or_text_plain : Text → Text)
      (missing : Content)
      → static_handler embedded first_or_text_plain missing path
        ≡ served_as (embedded path) (first_or_text_plain (d ∷ ext)) missing
  unfolding static_handler
  static_handler-path_of embedded first_or_text_plain missing =
      ground (arith, index_or-path_of dir c (stem ++ b'.' ∷ d ∷ ext), extension-path_of)
