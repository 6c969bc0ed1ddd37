-- ===== src/Examples/Archives.antt =====
-- An archive of a directory with one file and a socket, in files that are a function of their paths.
use Prim.Native.String.{◌++◌}
use mathlib.Core.List.{◌++◌ as list_append}
use ocm_controller.Prelude.{
  ap, sym, ◌∙◌, ◌≡◌, refl, String, none, some, List, [], ◌∷◌, false, if◌then◌else◌, if_true, str_eq,
  eq_iff,
}
use ocm_controller.Prelude.Outcome.{ok}
use ocm_controller.Snapshot.Tar.{TarServices, visit, directory, regular, irregular}
use ocm_controller.Snapshot.Archive.{Entry, TarLaws}

abbrev pub Files : Type 0
Files = String → List Entry

abbrev pub set_file : String → List Entry → Files → Files
set_file path es k q = if str_eq q path then es else k q

at_set : (path : String) (es : List Entry) (k : Files) → set_file path es k path ≡ es
at_set path es k = if_true (str_eq path path) _ _ ((eq_iff path path).1 refl)

-- the content of the last entry
abbrev fill_last : String → List Entry → List Entry
fill_last p [] = []
fill_last p (e ∷ []) = record e { content = some p } ∷ []
fill_last p (e ∷ f ∷ es) = e ∷ fill_last p (f ∷ es)

fill_last-append :
    (p name : String) (before : List Entry)
    → fill_last p (list_append before (record { name = name; content = none } ∷ []))
      ≡ list_append before (record { name = name; content = some p } ∷ [])
fill_last-append p name [] = refl
fill_last-append p name (x ∷ []) = refl
fill_last-append p name (x ∷ y ∷ ys) = ap (λ l. x ∷ l) (fill_last-append p name (y ∷ ys))

ok_inj : {a b : String} → ok a ≡ ok b → a ≡ b
ok_inj h = cc

abbrev pub tars : TarServices Files
tars = record {
  Header = String;
  is_missing = λ k dir. false;
  create_temp = λ k. (ok "/tmp/archive", set_file "/tmp/archive" [] k);
  walk = λ k dir.
      visit dir directory ∷ visit (dir ++ "/deploy.yaml") regular ∷ visit "socket" irregular ∷ [];
  file_info_header = λ k p kind. ok p;
  is_abs = λ dir. false;
  rel = λ dir p. ok p;
  with_name = λ header name. name;
  without_environment = λ header. header;
  write_header = λ tmp header k.
      (ok tt, set_file tmp (list_append (k tmp) (record { name = header; content = none } ∷ [])) k);
  copy_file = λ tmp p k. (ok tt, set_file tmp (fill_last p (k tmp)) k);
  close_archive = λ tmp k. (ok tt, k);
  chmod = λ tmp k. (ok tt, k);
  rename = λ tmp path k. (ok tt, set_file path (k tmp) k);
}

pub tars-laws : TarLaws tars
tars-laws = record {
  entries = λ k path. k path;
  name_of = λ header. header;
  with_name = λ header name. refl;
  without_environment = λ header. refl;
  create_temp = λ k tmp made.
      ap (set_file "/tmp/archive" [] k) (sym (ok_inj made)) ∙ at_set "/tmp/archive" [] k;
  write_header = λ tmp header k written. at_set tmp _ k;
  copy_file = λ tmp p name before k e has.
      at_set tmp _ k ∙ ap (fill_last p) has ∙ fill_last-append p name before;
  close_archive = λ tmp k closed. refl;
  chmod = λ tmp k changed. refl;
  rename = λ tmp path k renamed. at_set path _ k;
}

abbrev pub no_files : Files
no_files path = []
