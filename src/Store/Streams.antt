-- ===== src/Store/Streams.antt =====
-- What every method keeps of the event streams and the snapshots.
use go_odtbank.Base.{
  ℕ, suc, ◌+◌, ◌≤◌, String, ◌≡◌, inl, inr, refl, sym, ap, ◌∙◌, List, [], ◌∷◌, ◌++◌, append-nil,
  append_assoc, Dict, some, lookup, insert, stream, stream-insert_self, stream-insert_ne,
  String-cases, length, arith,
}
use go_odtbank.Domain.Event.{Event, version}
use go_odtbank.Domain.Account.{AccountSnapshot}
use go_odtbank.Domain.Account.Snapshots.{NumberedFrom, Captures}
use go_odtbank.Store.{MemoryStore}

-- In each stream the events carry their positions.
abbrev pub Numbered : Dict (List Event) → Type 0
Numbered d = (id : String) → NumberedFrom 0 (stream id d)

-- Each stored snapshot holds what some prefix of its stream adds up to.
abbrev pub SnapshotsMatch : MemoryStore → Type 0
SnapshotsMatch m =
    (id : String) (snap : AccountSnapshot)
    → lookup id m.snapshots ≡ some snap
    → (pre : List Event) × (post : List Event) × (stream id m.streams ≡ pre ++ post)
      × Captures id snap pre

-- Each stream has only been added to.
abbrev pub Extends : Dict (List Event) → Dict (List Event) → Type 0
Extends d d' = (id : String) → (more : List Event) × (stream id d' ≡ stream id d ++ more)

-- No stored snapshot is lost, or gives way to one of fewer events.
abbrev pub Newer : Dict AccountSnapshot → Dict AccountSnapshot → Type 0
Newer d d' =
    (id : String) (old : AccountSnapshot)
    → lookup id d ≡ some old
    → (later : AccountSnapshot) × (lookup id d' ≡ some later)
      × (old.as_of_sequence ≤ later.as_of_sequence)

pub record StoreInv (m : MemoryStore) : Type 0 where
  pub numbered : Numbered m.streams
  pub snapshots_match : SnapshotsMatch m

-- What every method keeps: from a store where the invariant holds, it holds again, the streams have
-- only been added to, and the snapshots are at least as recent.
pub record Keeps (m m' : MemoryStore) : Type 0 where
  pub inv : StoreInv m'
  pub grown : Extends m.streams m'.streams
  pub newer : Newer m.snapshots m'.snapshots

NumberedFrom-snoc :
    (n : ℕ) (es : List Event) (e : Event)
    → NumberedFrom n es
    → version e ≡ n + length es
    → NumberedFrom n (es ++ e ∷ [])
NumberedFrom-snoc n [] e h v = (omega arith, tt)
NumberedFrom-snoc n (x ∷ es) e h v = (h.0, NumberedFrom-snoc (suc n) es e h.1 (omega arith))

-- One more event, numbered by the length of the stream.
pub numbered_snoc :
    (es : List Event) (e : Event)
    → NumberedFrom 0 es
    → version e ≡ length es
    → NumberedFrom 0 (es ++ e ∷ [])
numbered_snoc es e h v = NumberedFrom-snoc 0 es e h (omega arith)

pub insert-Numbered :
    (k : String) (es : List Event) (d : Dict (List Event))
    → Numbered d
    → NumberedFrom 0 es
    → Numbered (insert k es d)
insert-Numbered k es d h n j = elim (String-cases j k) [
  | inl same ↦ rw (same, stream-insert_self k es d) n
  | inr other ↦ rw (stream-insert_ne j k es d other) (h j)
]

pub Extends-refl : (d : Dict (List Event)) → Extends d d
Extends-refl d j = ([], sym (append-nil (stream j d)))

pub insert-Extends :
    (k : String) (more : List Event) (d : Dict (List Event))
    → Extends d (insert k (stream k d ++ more) d)
insert-Extends k more d j = elim (String-cases j k) [
  | inl same ↦ (more, rw same (stream-insert_self k _ d))
  | inr other ↦ ([], stream-insert_ne j k _ d other ∙ sym (append-nil (stream j d)))
]

pub Extends-trans : (a b c : Dict (List Event)) → Extends a b → Extends b c → Extends a c
Extends-trans a b c f g j =
    let (xs, e) = f j in
    let (ys, h) = g j in
    (xs ++ ys, h ∙ ap (λ (s : List Event). s ++ ys) e ∙ append_assoc (stream j a) xs ys)

-- Adding to streams spoils no snapshot.
pub Extends-SnapshotsMatch :
    (m m' : MemoryStore)
    → Extends m.streams m'.streams
    → m'.snapshots ≡ m.snapshots
    → SnapshotsMatch m
    → SnapshotsMatch m'
Extends-SnapshotsMatch m m' more same h id snap found =
    let (pre, post, e, c) = h id snap (ap (lookup id) (sym same) ∙ found) in
    let (xs, x) = more id in
    (pre, post ++ xs, x ∙ ap (λ (s : List Event). s ++ xs) e ∙ append_assoc pre post xs, c)

-- A method that adds numbered events, and leaves the snapshots, keeps the invariant.
pub adds-Keeps :
    (m m' : MemoryStore)
    → StoreInv m
    → Extends m.streams m'.streams
    → Numbered m'.streams
    → m'.snapshots ≡ m.snapshots
    → Keeps m m'
adds-Keeps m m' inv more n same = record {
  inv = record {
    numbered = n;
    snapshots_match = Extends-SnapshotsMatch m m' more same inv.snapshots_match;
  };
  grown = more;
  newer = λ id old found. (old, ap (lookup id) same ∙ found, omega arith);
}

-- One more event on one stream, where the method changes nothing else of streams and snapshots.
pub adds_one-Keeps :
    (k : String) (e : Event) (m m' : MemoryStore)
    → StoreInv m
    → version e ≡ length (stream k m.streams)
    → m'.streams ≡ insert k (stream k m.streams ++ e ∷ []) m.streams
    → m'.snapshots ≡ m.snapshots
    → Keeps m m'
adds_one-Keeps k e m m' inv v s same =
    adds-Keeps m m' inv (rw s (insert-Extends k (e ∷ []) m.streams))
      (rw s (
        insert-Numbered k _ m.streams inv.numbered
          (numbered_snoc (stream k m.streams) e (inv.numbered k) v)))
      same

-- A method that leaves streams and snapshots alone.
pub same-Keeps :
    (m m' : MemoryStore)
    → StoreInv m
    → m'.streams ≡ m.streams
    → m'.snapshots ≡ m.snapshots
    → Keeps m m'
same-Keeps m m' inv s same =
    adds-Keeps m m' inv (rw s (Extends-refl m.streams)) (rw s inv.numbered) same

pub Keeps-refl : (m : MemoryStore) → StoreInv m → Keeps m m
Keeps-refl m inv = same-Keeps m m inv refl refl
