-- ===== src/Snapshot/Archive.antt =====
-- What buildTar puts into an archive.
use mathlib.Core.List.{◌++◌ as list_append, append-nil, append_assoc}
use mathlib.Core.Path.{subst}
use ocm_controller.Prelude.{
  String, ◌≡◌, refl, sym, ap, ◌∙◌, Option, none, some, List, [], ◌∷◌, Bool, true, false,
  if◌then◌else◌,
}
use ocm_controller.Prelude.Outcome.{Error, Result, ok, err, step-ok, pure}
use ocm_controller.Snapshot.Tar.{
  TarServices, FileKind, directory, regular, irregular, Visit, visit, failed_visit, is_regular,
  relative_path, add_file, add_visit, add_visits, build_tar,
}

-- An entry: its name, and the file whose content it has, if it is no directory.
pub record Entry : Type 0 where
  pub name : String
  pub content : Option String

-- Files and archives behave as documented: a temporary file is empty, a header starts an entry, a copy
-- fills the last one, closing and the change of the mode leave the entries alone, and a rename moves
-- them.
pub record TarLaws {State : Type 0} (s : TarServices State) : Type 0 where
  pub entries : State → String → List Entry
  pub name_of : s.Header → String
  pub with_name : (header : s.Header) (name : String) → name_of (s.with_name header name) ≡ name
  pub without_environment :
      (header : s.Header) → name_of (s.without_environment header) ≡ name_of header
  pub create_temp :
      (h : State) (tmp : String)
      → (s.create_temp h).0 ≡ ok tmp
      → entries (s.create_temp h).1 tmp ≡ []
  pub write_header :
      (tmp : String) (header : s.Header) (h : State)
      → (s.write_header tmp header h).0 ≡ ok tt
      → entries (s.write_header tmp header h).1 tmp
        ≡ list_append (entries h tmp) (record { name = name_of header; content = none } ∷ [])
  pub copy_file :
      (tmp p name : String) (before : List Entry) (h : State)
      → (s.copy_file tmp p h).0 ≡ ok tt
      → entries h tmp ≡ list_append before (record { name = name; content = none } ∷ [])
      → entries (s.copy_file tmp p h).1 tmp
        ≡ list_append before (record { name = name; content = some p } ∷ [])
  pub close_archive :
      (tmp : String) (h : State)
      → (s.close_archive tmp h).0 ≡ ok tt
      → entries (s.close_archive tmp h).1 tmp ≡ entries h tmp
  pub chmod :
      (tmp : String) (h : State)
      → (s.chmod tmp h).0 ≡ ok tt
      → entries (s.chmod tmp h).1 tmp ≡ entries h tmp
  pub rename :
      (tmp path : String) (h : State)
      → (s.rename tmp path h).0 ≡ ok tt
      → entries (s.rename tmp path h).1 path ≡ entries h tmp

-- The entries for what was visited: each directory and each regular file, in order, under its name;
-- anything else is left out, and there was no error.
pub data Archives (named : String → Result String) : List Visit → List Entry → Type 0 where
  nothing : Archives named [] []
  left_out :
      {p : String} {vs : List Visit} {es : List Entry}
      → Archives named vs es
      → Archives named (visit p irregular ∷ vs) es
  a_directory :
      {p name : String} {vs : List Visit} {es : List Entry}
      → named p ≡ ok name
      → Archives named vs es
      → Archives named (visit p directory ∷ vs) (record { name = name; content = none } ∷ es)
  a_file :
      {p name : String} {vs : List Visit} {es : List Entry}
      → named p ≡ ok name
      → Archives named vs es
      → Archives named (visit p regular ∷ vs) (record { name = name; content = some p } ∷ es)

module _ {State : Type 0} (s : TarServices State) (laws : TarLaws s) where
  open laws use {entries}

  abbrev content_of : FileKind → String → Option String
  content_of kind p = if is_regular kind then some p else none

  copied :
      (tmp p name : String) (kind : FileKind) (before : List Entry) (h : State)
      → ((if is_regular kind then s.copy_file tmp p else pure tt) h).0 ≡ ok tt
      → entries h tmp ≡ list_append before (record { name = name; content = none } ∷ [])
      → entries ((if is_regular kind then s.copy_file tmp p else pure tt) h).1 tmp
        ≡ list_append before (record { name = name; content = content_of kind p } ∷ [])
  copied tmp p name regular before h e f = laws.copy_file tmp p name before h e f
  copied tmp p name directory before h e f = f
  copied tmp p name irregular before h e f = f

  -- what ends well was not refused before it started
  past_test :
      {A : Type 0} (b : Bool) (x : Error) (h : State) (y : Result A × State) {a : A}
      → (if b then (err x, h) else y).0 ≡ ok a
      → (if b then (err x, h) else y) ≡ y
  past_test true x h y e = cc
  past_test false x h y e = refl

  add_file-adds :
      (tmp source_dir p : String) (kind : FileKind) (h : State)
      → (add_file s tmp source_dir p kind h).0 ≡ ok tt
      → (name : String) × (relative_path s source_dir p ≡ ok name)
        × (entries (add_file s tmp source_dir p kind h).1 tmp
            ≡ list_append
                (entries h tmp)
                (record { name = name; content = content_of kind p } ∷ []))
  unfolding add_file
  add_file-adds tmp source_dir p kind h e =
      let (header, got, same) = step-ok (s.file_info_header h p kind) _ h e in
      let e₁ = ap (λ x. x.0) (sym same) ∙ e in
      let (name, named, same₁) = step-ok (relative_path s source_dir p) _ h e₁ in
      let e₂ = ap (λ x. x.0) (sym same₁) ∙ e₁ in
      let hd = s.without_environment (s.with_name header name) in
      let (_, written, same₂) = step-ok (s.write_header tmp hd h).0 _ _ e₂ in
      let e₃ = ap (λ x. x.0) (sym same₂) ∙ e₂ in
      let is_name =
        laws.without_environment (s.with_name header name) ∙ laws.with_name header name in
      let has =
        laws.write_header tmp hd h written
        ∙ ap
            (λ (t : String). list_append (entries h tmp) (record { name = t; content = none } ∷ []))
            is_name in
      (
        name,
        named,
        ap (λ x. entries x.1 tmp) (same ∙ same₁ ∙ same₂)
            ∙ copied tmp p name kind (entries h tmp) _ e₃ has,
      )

  add_visits-Archives :
      (tmp source_dir : String) (vs : List Visit) (h : State)
      → (add_visits s tmp source_dir vs h).0 ≡ ok tt
      → (es : List Entry) × Archives (relative_path s source_dir) vs es
        × (entries (add_visits s tmp source_dir vs h).1 tmp ≡ list_append (entries h tmp) es)
  unfolding add_visits add_visit
  add_visits-Archives tmp source_dir [] h e = ([], nothing, sym (append-nil _))
  add_visits-Archives tmp source_dir (failed_visit x ∷ vs) h e = cc
  add_visits-Archives tmp source_dir (visit p irregular ∷ vs) h e =
      let (es, a, same) = add_visits-Archives tmp source_dir vs h e in (es, left_out a, same)
  add_visits-Archives tmp source_dir (visit p directory ∷ vs) h e =
      let (_, added, same) = step-ok (add_file s tmp source_dir p directory h).0 _ _ e in
      let (name, named, has) = add_file-adds tmp source_dir p directory h added in
      let (es, a, more) = add_visits-Archives tmp source_dir vs _ (ap (λ x. x.0) (sym same) ∙ e) in
      (
        _,
        a_directory named a,
        ap (λ x. entries x.1 tmp) same
            ∙ more
            ∙ ap (λ l. list_append l es) has
            ∙ append_assoc _ (_ ∷ []) es,
      )
  add_visits-Archives tmp source_dir (visit p regular ∷ vs) h e =
      let (_, added, same) = step-ok (add_file s tmp source_dir p regular h).0 _ _ e in
      let (name, named, has) = add_file-adds tmp source_dir p regular h added in
      let (es, a, more) = add_visits-Archives tmp source_dir vs _ (ap (λ x. x.0) (sym same) ∙ e) in
      (
        _,
        a_file named a,
        ap (λ x. entries x.1 tmp) same
            ∙ more
            ∙ ap (λ l. list_append l es) has
            ∙ append_assoc _ (_ ∷ []) es,
      )

  -- An archive that buildTar made without an error has exactly one entry for each directory and each
  -- regular file that the walk of the source directory meets, in its order: under the path relative to
  -- the source directory if that is absolute, and under the path else; with the content of the file
  -- for a file. The walk starts when the temporary file is there, and meets no error.
  pub build_tar-Archives :
      (artifact_path source_dir : String) (h : State)
      → (build_tar s artifact_path source_dir h).0 ≡ ok tt
      → Archives
          (relative_path s source_dir)
          (s.walk (s.create_temp h).1 source_dir)
          (entries (build_tar s artifact_path source_dir h).1 artifact_path)
  unfolding build_tar
  build_tar-Archives artifact_path source_dir h e =
      let same = past_test (s.is_missing h source_dir) _ h _ e in
      let e₁ = ap (λ x. x.0) (sym same) ∙ e in
      let (tmp, made, same₁) = step-ok (s.create_temp h).0 _ _ e₁ in
      let e₂ = ap (λ x. x.0) (sym same₁) ∙ e₁ in
      let h₂ = (s.create_temp h).1 in
      let visits = s.walk h₂ source_dir in
      let (_, added, same₂) = step-ok (add_visits s tmp source_dir visits h₂).0 _ _ e₂ in
      let e₃ = ap (λ x. x.0) (sym same₂) ∙ e₂ in
      let h₃ = (add_visits s tmp source_dir visits h₂).1 in
      let (_, closed, same₃) = step-ok (s.close_archive tmp h₃).0 _ _ e₃ in
      let e₄ = ap (λ x. x.0) (sym same₃) ∙ e₃ in
      let h₄ = (s.close_archive tmp h₃).1 in
      let (_, changed, same₄) = step-ok (s.chmod tmp h₄).0 _ _ e₄ in
      let e₅ = ap (λ x. x.0) (sym same₄) ∙ e₄ in
      let (es, a, more) = add_visits-Archives tmp source_dir visits h₂ added in
      let left =
        ap (λ x. entries x.1 artifact_path) (same ∙ same₁ ∙ same₂ ∙ same₃ ∙ same₄)
        ∙ laws.rename tmp artifact_path _ e₅
        ∙ laws.chmod tmp h₄ changed
        ∙ laws.close_archive tmp h₃ closed
        ∙ more
        ∙ ap (λ l. list_append l es) (laws.create_temp h tmp made) in
      subst (λ l. Archives (relative_path s source_dir) visits l) (sym left) a
