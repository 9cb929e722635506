-- ===== src/AudioServer/Preserved.antt =====
-- What no call of apps/api/src/audio/audio.service.ts takes back or changes.
use elder_interview_ai.Prelude.{
  ℕ, ◌≡◌, refl, ◌∙◌, inl, inr, Bool, Bool-cases, String, List, [], ◌∷◌, Option, none, some, arith,
}
use elder_interview_ai.Prelude.Rows.{find, update_where}
use elder_interview_ai.Prelude.Keeping
use elder_interview_ai.Prelude.Map.{Map, get}
use elder_interview_ai.Prelude.Action.{Result, ok, err, ◌>>=◌, throw_if, require, catch}
use elder_interview_ai.AudioServer.Tables.{
  AudioObject, AudioChunk, IdempotencyRecord, Database, State, Failure, Call,
}
use elder_interview_ai.AudioServer.Access.{
  undo, transaction, write, find_object, find_chunk, find_record,
}

-- A chunk's row and the answer of a request stay as they are, an object stays there, and who has
-- access to which project is not touched.
pub record TablesKept (d d' : Database) : Type 0 where
  pub chunks :
      (object_id : String) (n : ℕ) (c : AudioChunk)
      → find_chunk object_id n d ≡ some c
      → find_chunk object_id n d' ≡ some c
  pub records :
      (request_id : String) (r : IdempotencyRecord)
      → find_record request_id d ≡ some r
      → find_record request_id d' ≡ some r
  pub objects :
      (object_id : String) (o : AudioObject)
      → find_object object_id d ≡ some o
      → (o' : AudioObject) × (find_object object_id d' ≡ some o')
  pub projects : d'.projects ≡ d.projects
  pub assignments : d'.assignments ≡ d.assignments

-- So does a file.
abbrev pub FilesKept : Map (List ℕ) → Map (List ℕ) → Type 0
FilesKept m m' = (key : String) (bytes : List ℕ) → get key m ≡ some bytes → get key m' ≡ some bytes

pub record Preserved (s t : State) : Type 0 where
  pub tables : TablesKept s.database t.database
  pub files : FilesKept s.files t.files

abbrev pub Keeps : {A : Type 0} → Call A → Type 0
Keeps m = (s : State) → Preserved s (m s).1

pub TablesKept-refl : (d : Database) → TablesKept d d
TablesKept-refl d = record {
  chunks = λ i n c h. h;
  records = λ i r h. h;
  objects = λ i o h. (o, h);
  projects = refl;
  assignments = refl;
}

pub Preserved-refl : (s : State) → Preserved s s
Preserved-refl s = record { tables = TablesKept-refl s.database; files = λ k b h. h }

pub Preserved-trans : (s t u : State) → Preserved s t → Preserved t u → Preserved s u
Preserved-trans s t u p q = record {
  tables = record {
    chunks = λ i n c h. q.tables.chunks i n c (p.tables.chunks i n c h);
    records = λ i r h. q.tables.records i r (p.tables.records i r h);
    objects = λ i o h. let (o', h') = p.tables.objects i o h in q.tables.objects i o' h';
    projects = q.tables.projects ∙ p.tables.projects;
    assignments = q.tables.assignments ∙ p.tables.assignments;
  };
  files = λ k b h. q.files k b (p.files k b h);
}

module _ {A B : Type 0} where
  pub Keeps-bind :
      (m : Call A) (f : A → Call B) → Keeps m → ((a : A) → Keeps (f a)) → Keeps (m >>= f)
  Keeps-bind m f k l = Keeping.Keeps-bind Preserved Preserved-refl Preserved-trans m f k l

  pub Keeps-required :
      (o : Option A) (e : Failure) (k : A → Call B)
      → ((a : A) → Keeps (k a))
      → Keeps (require o e >>= k)
  Keeps-required o e k h s =
      Keeping.Keeps-required Preserved Preserved-refl Preserved-trans o e k s (λ a _. h a s)

module _ {A : Type 0} where
  pub Keeps-catch :
      (m : Call A) (h : Failure → Call A)
      → Keeps m
      → ((e : Failure) → Keeps (h e))
      → Keeps (catch m h)
  Keeps-catch m h k l = Keeping.Keeps-catch Preserved Preserved-refl Preserved-trans m h k l

  undone :
      (s u : State) → Preserved s u → (r : Result Failure A) → Preserved s (undo r u s.database).1
  undone s u p (ok a) = p
  undone s u p (err e) = record { tables = TablesKept-refl s.database; files = p.files }

  pub Keeps-transaction : (m : Call A) → Keeps m → Keeps (transaction m)
  Keeps-transaction m k s = undone s (m s).1 (k s) (m s).0

  pub Keeps-require : (o : Option A) (e : Failure) → Keeps (require o e)
  Keeps-require none e s = Preserved-refl s
  Keeps-require (some a) e s = Preserved-refl s

pub Keeps-write :
    (f : Database → Database) → ((d : Database) → TablesKept d (f d)) → Keeps (write f)
Keeps-write f k s = record { tables = k s.database; files = λ key b h. h }

module _ {A : Type 0} where
  pub found-update_where :
      (q q' : A → Bool) (f : A → A) (xs : List A) (x : A)
      → ((y : A) → q (f y) ≡ q y)
      → find q xs ≡ some x
      → (y : A) × (find q (update_where q' f xs) ≡ some y)
  unfolding find update_where
  found-update_where q q' f [] x k h = cc
  found-update_where q q' f (z ∷ zs) x k h = elim (Bool-cases (q z)) [
    | inl e ↦ elim (Bool-cases (q' z)) [
      | inl e' ↦ (f z, ground (arith, k z))
      | inr e' ↦ (z, ground arith)
    ]
    | inr e ↦
        let (y, g) = found-update_where q q' f zs x k (ground arith) in (y, ground (arith, k z))
  ]

pub Keeps-guard :
    {B : Type 0} (c : Bool) (e : Failure) (k : Unit {0} → Call B)
    → Keeps (k tt)
    → Keeps (throw_if c e >>= k)
Keeps-guard c e k h = Keeping.Keeps-guard Preserved Preserved-refl Preserved-trans c e k h

-- A call that writes nothing.
pub Keeps-reads : {A : Type 0} (m : Call A) → ((s : State) → (m s).1 ≡ s) → Keeps m
Keeps-reads m same = Keeping.Keeps-reads Preserved Preserved-refl Preserved-trans m same
