-- ===== src/Ballot/Server/Files.antt =====
-- ballot_box/src/main.rs: how the server answers a request for a file.
use managed_linux_democracy.Prelude.{
  ℕ, ◌≡◌, ◌≢◌, ◌∙◌, refl, ap, arith, [], ◌∷◌, ◌++◌, Option, none, some, Profile, returned,
}
use managed_linux_democracy.Prelude.Map.{get}
use managed_linux_democracy.Prelude.Text.{Text, codes, text_eq, text_eqb}
use managed_linux_democracy.Ballot.State.{AppContext}
use managed_linux_democracy.Ballot.Static.{static_handler}
use managed_linux_democracy.Ballot.Static.Extension.{
  Without, path_of, served_as, static_handler-path_of,
}
use managed_linux_democracy.Ballot.Routes.{get_method, index, static_file, to_handler, app}
use managed_linux_democracy.Ballot.Server.{
  HttpRequest, file, Surroundings, static_reply, handle, respond,
}
use managed_linux_democracy.Ballot.Server.Answers.{app-IsSimple, respond-handle, routed_to}

module _ (o : Surroundings) (p : Profile) (r : HttpRequest o.Body) (s : AppContext)
    (method : r.method ≡ get_method) where
  -- A GET of a path that no other route has is answered by `static_handler`.
  pub respond-static_handler :
      (rest path : Text)
      → r.path ≡ b'/' ∷ rest
      → rest ≢ []
      → get (b'/' ∷ rest) app ≡ none
      → o.axum.decoded rest ≡ some path
      → respond o p r s ≡ (s, returned (static_reply o p path))
  unfolding handle text_eqb get
  respond-static_handler rest path requested filled free decoded =
      let e : o.axum.route app get_method (b'/' ∷ rest) ≡ to_handler static_file rest =
        o.axum.route_wildcard app get_method rest _ static_file app-IsSimple filled free refl
          refl in
      let routed : o.axum.route app r.method r.path ≡ to_handler static_file rest =
        rw (method, requested) e in
      respond-handle o p r s static_file rest routed ∙ rw (decoded, handle)

  -- A GET of `/stem.ext` or `/dir/stem.ext`, where no other route has the path, which may be
  -- percent-encoded, neither the stem nor the extension is empty, neither has a slash and the
  -- extension has no dot, changes nothing, and is answered with the embedded file, status 200 and the
  -- type that the table gives to this extension, or with the 404 page.
  pub respond-path_of :
      (rest : Text) (dir : Option Text) (c d : ℕ) (stem ext : Text)
      → r.path ≡ b'/' ∷ rest
      → rest ≢ []
      → get (b'/' ∷ rest) app ≡ none
      → o.axum.decoded rest ≡ some (path_of dir ((c ∷ stem) ++ b'.' ∷ d ∷ ext))
      → Without b'/' (c ∷ stem)
      → Without b'/' (d ∷ ext)
      → Without b'.' (d ∷ ext)
      → respond o p r s ≡ (
        s,
        returned (
            file (
              served_as
                (o.embedded (path_of dir ((c ∷ stem) ++ b'.' ∷ d ∷ ext)))
                (o.first_or_text_plain (d ∷ ext))
                o.missing)),
      )
  respond-path_of rest dir c d stem ext requested filled free decoded flat flat' whole =
      respond-static_handler rest (path_of dir ((c ∷ stem) ++ b'.' ∷ d ∷ ext)) requested filled free
        decoded
      ∙ ap (λ x. (s, returned (file x)))
          (static_handler-path_of dir c d stem ext flat flat' whole o.embedded o.first_or_text_plain
            o.missing)

  -- A GET of `/` is answered with the embedded index.html, with the type of `html`, or the 404 page.
  pub respond-index :
      r.path ≡ codes "/"
      → respond o p r s ≡ (
        s,
        returned (
            file (
              served_as
                (o.embedded (codes "index.html"))
                (o.first_or_text_plain (codes "html"))
                o.missing)),
      )
  unfolding handle text_eqb get static_handler
  respond-index requested =
      let (rest, e) = routed_to o p get_method (codes "/") _ index (omega arith) refl refl in
      let routed : o.axum.route app r.method r.path ≡ to_handler index rest =
        rw (method, requested) e in
      respond-handle o p r s index rest routed
      ∙ ap (λ x. (s, returned (file x)))
          (static_handler-path_of none b'i' b'h' (codes "ndex") (codes "tml") (omega arith)
            (omega arith) (omega arith) o.embedded o.first_or_text_plain o.missing)
