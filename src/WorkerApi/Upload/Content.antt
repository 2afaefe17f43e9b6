-- ===== src/WorkerApi/Upload/Content.antt =====
-- What a successful reception leaves on the disk.
use mathlib.Core.List.{append-nil, append_assoc}
use project_dia.Prelude.{
  ℕ, suc, ◌≡◌, ◌≢◌, refl, sym, ap, ◌∙◌, Bool, true, false, Option, none, some, List, [], ◌∷◌, ◌++◌,
  first,
}
use project_dia.Prelude.Text.{Text, text_eq, text_eq_iff}
use project_dia.Errors.{Error, DbError}
use project_dia.Store.World.{World, File, ok, raise}
use project_dia.Store.World.Inversion.{then_inv, bind_inv, pure_inv, refuse_if_inv}
use project_dia.WorkerApi.Upload.{
  Incoming, metadata, chunk, interrupted, receive_chunks, receive_content, on_temporary, rename_to,
  disk, touched, failure, without_file, discard_if,
}
use project_dia.WorkerApi.Upload.Disk.{file_at}

-- The bytes of the chunks of a stream.
abbrev pub bytes_of : List Incoming → List ℕ
bytes_of [] = []
bytes_of (chunk bytes ∷ messages) = bytes ++ bytes_of messages
bytes_of (m ∷ messages) = bytes_of messages

touched_inv {ℓ} :
    {A : Type ℓ} (w v : World) (o : Option DbError) (e : Error) (x : A × List File) (a : A)
    → touched w o e x ≡ (ok a, v)
    → (x.0 ≡ a) × (v ≡ record w { tick = suc w.tick; files = x.1 })
touched_inv w v (some fault) e x a h = cc
touched_inv w v none e (b, files) a h = (cc, cc)

pub disk_inv {ℓ} :
    {A : Type ℓ} (e : Error) (f : List File → A × List File) (w v : World) (a : A)
    → disk e f w ≡ (ok a, v)
    → ((f w.files).0 ≡ a) × (v ≡ record w { tick = suc w.tick; files = (f w.files).1 })
unfolding disk
disk_inv e f w v a h = touched_inv w v (w.env.fault w.tick) e (f w.files) a h

-- The tables of two worlds are the same.
abbrev pub SameDb : World → World → Type 0
SameDb w v = v.db ≡ w.db

temporary_inv : (w v : World) (a : Unit {0}) → on_temporary w ≡ (ok a, v) → SameDb w v
temporary_inv w v a h = ap (λ x. x.db) (disk_inv failure _ w v a h).1

never {ℓ} : {A : Type ℓ} (e : Error) (a : A) (w v : World) → raise e w ≢ (ok a, v)
unfolding raise
never e a w v h = cc

receive_chunks_inv :
    (received : List ℕ) (messages : List Incoming) (w v : World) (content : List ℕ)
    → receive_chunks received messages w ≡ (ok content, v)
    → (received ++ bytes_of messages ≡ content) × SameDb w v
unfolding receive_chunks
receive_chunks_inv received [] w v content h =
    let (same, end) = pure_inv received content w v h in
    (append-nil received ∙ same, ap (λ x. x.db) (sym end))
receive_chunks_inv received (interrupted ∷ messages) w v content h = absurd (never _ content w v h)
receive_chunks_inv received (metadata m ∷ messages) w v content h = absurd (never _ content w v h)
receive_chunks_inv received (chunk bytes ∷ messages) w v content h =
    let (_, w1, h1, k1) = then_inv _ _ w v content h in
    let (_, w2, h2, k2) = then_inv _ _ w1 v content k1 in
    let (same, rest) = receive_chunks_inv (received ++ bytes) messages w2 v content k2 in
    (
      sym (append_assoc received bytes (bytes_of messages)) ∙ same,
      rest ∙ temporary_inv w1 w2 _ h2 ∙ ap (λ x. x.db) (refuse_if_inv _ _ _ w w1 h1).1,
    )

renamed :
    (path : Text) (content : List ℕ) (files : List File)
    → file_at path (record { path = path; content = content } ∷ files)
      ≡ some (record { path = path; content = content })
unfolding first
renamed path content files =
    let same : text_eq path path ≡ true = (text_eq_iff path path).1 refl in rw same refl

-- The content is the bytes of the chunks, it stands at the destination, and the tables are untouched.
pub receive_content_inv :
    (destination : Text) (messages : List Incoming) (w v : World) (content : List ℕ)
    → receive_content destination messages w ≡ (ok content, v)
    → (bytes_of messages ≡ content)
      × (file_at destination v.files ≡ some (record { path = destination; content = content }))
      × SameDb w v
unfolding receive_content rename_to
receive_content_inv destination messages w v content h =
    let (_, w1, h1, k1) = then_inv _ _ w v content h in
    let (_, w2, h2, k2) = then_inv _ _ w1 v content k1 in
    let (_, w3, h3, k3) = then_inv _ _ w2 v content k2 in
    let (received, w4, h4, k4) = bind_inv _ _ w3 v content k3 in
    let (_, w5, h5, k5) = then_inv _ _ w4 v content k4 in
    let (_, w6, h6, k6) = then_inv _ _ w5 v content k5 in
    let (_, w7, h7, k7) = then_inv _ _ w6 v content k6 in
    let (same, end) = pure_inv received content w7 v k7 in
    let (bytes, db4) = receive_chunks_inv [] messages w3 w4 received h4 in
    let moved = (disk_inv failure _ w6 w7 _ h7).1 in
    (
      bytes ∙ same,
      ap (λ x. file_at destination x.files) (sym end ∙ moved)
          ∙ renamed destination received (without_file destination w6.files)
          ∙ ap (λ c. some (record { path = destination; content = c })) same,
      ap (λ x. x.db) (sym end ∙ moved)
          ∙ temporary_inv w5 w6 _ h6
          ∙ temporary_inv w4 w5 _ h5
          ∙ db4
          ∙ temporary_inv w2 w3 _ h3
          ∙ temporary_inv w1 w2 _ h2
          ∙ temporary_inv w w1 _ h1,
    )

-- A discarded upload returns nothing.
pub discard_if_inv :
    (b : Bool) (destination : Text) (w v : World) (a : Unit {0})
    → discard_if b destination w ≡ (ok a, v)
    → (b ≡ false) × (v ≡ w)
unfolding discard_if
discard_if_inv true destination w v a h =
    let (_, u, _, k) = then_inv _ _ w v a h in absurd (never _ a u v k)
discard_if_inv false destination w v a h = (refl, sym (pure_inv tt a w v h).1)
