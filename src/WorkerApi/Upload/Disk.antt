-- ===== src/WorkerApi/Upload/Disk.antt =====
-- Which actions leave the file at a path as it is: one rule for each way to build an action.
use project_dia.Prelude.{
  ℕ, ◌≡◌, ◌≢◌, refl, sym, ap, ◌∙◌, Bool, true, false, Option, none, some, List, [], ◌∷◌, first,
  where_, Bool-cases, inl, inr, if◌then◌else◌,
}
use project_dia.Prelude.Text.{Text, text_eq, text_eq_iff}
use project_dia.Domain.{Uuid, Time}
use project_dia.Errors.{Error, DbError}
use project_dia.Store.World.{
  World, File, Db, Action, Result, ok, err, Effect, done, failed, pure, raise, statement, query_row,
  rescue, refuse_if, require, ◌>>=◌, ◌>>◌, attempt, handle, continue_with,
}
use project_dia.WorkerApi.Upload.{
  disk, touched, on_temporary, is_at, without_file, rename_to, remove_file, failure,
}

-- The file at a path.
abbrev pub file_at : Text → List File → Option File
file_at path files = first (is_at path) files

-- Whether it returns or fails, `m` leaves the file at the path alone.
pub record Leaves {κ} {A : Type κ} (path : Text) (m : Action A) : Type κ where
  pub at : (w : World) → file_at path (m w).1.files ≡ file_at path w.files

text_apart : (a b : Text) → a ≢ b → text_eq a b ≡ false
text_apart a b h = elim (Bool-cases (text_eq a b)) [
  | inl e ↦ absurd (h ((text_eq_iff a b).0 e))
  | inr e ↦ e
]

module _ (path : Text) where
  without-file_at :
      (other : Text) (files : List File)
      → other ≢ path
      → file_at path (without_file other files) ≡ file_at path files
  unfolding first where_ without_file text_eq
  without-file_at other [] apart = refl
  without-file_at other (f ∷ files) apart = elim (Bool-cases (is_at other f)) [
    | inl h ↦
        let same : f.path ≡ other = (text_eq_iff f.path other).0 h in
        let elsewhere : is_at path f ≡ false = text_apart f.path path (λ e. apart (sym same ∙ e)) in
        rw (h, elsewhere) (without-file_at other files apart)
    | inr h ↦ elim (Bool-cases (is_at path f)) [
      | inl here ↦ rw (h, here) refl
      | inr there ↦ rw (h, there) (without-file_at other files apart)
    ]
  ]

  put-file_at :
      (other : Text) (content : List ℕ) (files : List File)
      → text_eq other path ≡ false
      → file_at path (record { path = other; content = content } ∷ files) ≡ file_at path files
  unfolding first
  put-file_at other content files h = rw h refl

  module _ {κ} {A : Type κ} where
    pub Leaves-pure : (a : A) → Leaves path (pure a)
    unfolding pure
    Leaves-pure a = record { at = λ w. refl }

    pub Leaves-raise : (e : Error) → Leaves path (raise {A = A} e)
    unfolding raise
    Leaves-raise e = record { at = λ w. refl }

    attempt-files :
        (w : World) (o : Option DbError) (x : Effect A) → (attempt w o x).1.files ≡ w.files
    attempt-files w (some e) x = refl
    attempt-files w none (done a db) = refl
    attempt-files w none (failed e) = refl

    pub Leaves-statement : (f : Uuid → Time → Db → Effect A) → Leaves path (statement f)
    unfolding statement
    Leaves-statement f = record {
      at = λ w. ap (file_at path) (attempt-files w (w.env.fault w.tick) _);
    }

    pub Leaves-query_row : (q : Db → Option A) → Leaves path (query_row q)
    unfolding query_row
    Leaves-query_row q = Leaves-statement _

    handled-file :
        (handler : Error → Action A) (files : List File) (x : Result A × World)
        → ((e : Error) → Leaves path (handler e))
        → file_at path x.1.files ≡ file_at path files
        → file_at path (handle handler x).1.files ≡ file_at path files
    handled-file handler files (ok a, v) kh k = k
    handled-file handler files (err e, v) kh k = (kh e).at v ∙ k

    pub Leaves-rescue :
        (m : Action A) (handler : Error → Action A)
        → Leaves path m
        → ((e : Error) → Leaves path (handler e))
        → Leaves path (rescue m handler)
    unfolding rescue
    Leaves-rescue m handler km kh = record {
      at = λ w. handled-file handler w.files (m w) kh (km.at w);
    }

    pub Leaves-require : (o : Option A) (e : Error) → Leaves path (require o e)
    unfolding require
    Leaves-require none e = Leaves-raise e
    Leaves-require (some a) e = Leaves-pure a

    pub Leaves-if :
        (b : Bool) (m n : Action A)
        → Leaves path m
        → Leaves path n
        → Leaves path (if b then m else n)
    Leaves-if true m n km kn = km
    Leaves-if false m n km kn = kn

    touched-file :
        (w : World) (o : Option DbError) (e : Error) (x : A × List File)
        → file_at path x.1 ≡ file_at path w.files
        → file_at path (touched w o e x).1.files ≡ file_at path w.files
    touched-file w (some fault) e x h = refl
    touched-file w none e (a, files) h = h

    pub Leaves-disk :
        (e : Error) (f : List File → A × List File)
        → ((files : List File) → file_at path (f files).1 ≡ file_at path files)
        → Leaves path (disk e f)
    unfolding disk
    Leaves-disk e f h = record {
      at = λ w. touched-file w (w.env.fault w.tick) e (f w.files) (h w.files);
    }

  module _ {κ λ'} {A : Type κ} {B : Type λ'} where
    continued-file :
        (f : A → Action B) (files : List File) (x : Result A × World)
        → ((a : A) (v : World) → x ≡ (ok a, v) → Leaves path (f a))
        → file_at path x.1.files ≡ file_at path files
        → file_at path (continue_with f x).1.files ≡ file_at path files
    continued-file f files (ok a, v) kf k = (kf a v refl).at v ∙ k
    continued-file f files (err e, v) kf k = k

    -- What follows may use that the first part returned.
    pub Leaves-after :
        (m : Action A) (f : A → Action B)
        → Leaves path m
        → ((a : A) (w v : World) → m w ≡ (ok a, v) → Leaves path (f a))
        → Leaves path (m >>= f)
    unfolding ◌>>=◌
    Leaves-after m f km kf = record {
      at = λ w. continued-file f w.files (m w) (λ a v. kf a w v) (km.at w);
    }

    pub Leaves-bind :
        (m : Action A) (f : A → Action B)
        → Leaves path m
        → ((a : A) → Leaves path (f a))
        → Leaves path (m >>= f)
    Leaves-bind m f km kf = Leaves-after m f km (λ a w v h. kf a)

    pub Leaves-then :
        (m : Action A) (k : Action B) → Leaves path m → Leaves path k → Leaves path (m >> k)
    unfolding ◌>>◌
    Leaves-then m k km kk = Leaves-bind m (λ _. k) km (λ _. kk)

  pub Leaves-refuse_if : (b : Bool) (e : Error) → Leaves path (refuse_if b e)
  unfolding refuse_if
  Leaves-refuse_if true e = Leaves-raise e
  Leaves-refuse_if false e = Leaves-pure tt

  pub Leaves-on_temporary : Leaves path on_temporary
  Leaves-on_temporary = Leaves-disk failure _ (λ files. refl)

  pub Leaves-rename_to :
      (other : Text) (content : List ℕ) → other ≢ path → Leaves path (rename_to other content)
  unfolding rename_to
  Leaves-rename_to other content apart = Leaves-disk failure _ λ files.
      put-file_at other content (without_file other files) (text_apart other path apart)
      ∙ without-file_at other files apart

  pub Leaves-remove_file : (other : Text) → other ≢ path → Leaves path (remove_file other)
  unfolding remove_file
  Leaves-remove_file other apart =
      Leaves-rescue _ _ (Leaves-disk failure _ λ files. without-file_at other files apart)
        (λ e. Leaves-pure tt)

pub ruleset leaves_rules = (
  Leaves-pure, Leaves-raise, Leaves-statement, Leaves-query_row, Leaves-rescue, Leaves-require,
  Leaves-if, Leaves-refuse_if, Leaves-bind, Leaves-then, Leaves-on_temporary,
)
