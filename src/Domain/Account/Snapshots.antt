-- ===== src/Domain/Account/Snapshots.antt =====
-- A replay from a snapshot and its tail gives what the replay of the whole stream gives.
use go_odtbank.Base.{
  ℕ, suc, ◌+◌, ◌≤◌, String, List, [], ◌∷◌, ◌++◌, some, ◌≡◌, refl, sym, ap, subst, ◌∙◌, append-nil,
  str_eq_self, arith, length, length-append,
}
use go_odtbank.Domain.Event.{Event, version}
use go_odtbank.Domain.Account.{
  Account, AccountSnapshot, fold, fold_all, fold_after, empty_account, resumed, replay_account,
  replay_account_from,
}

-- Each event carries its position in the stream.
abbrev pub NumberedFrom : ℕ → List Event → Type 0
NumberedFrom n [] = Unit
NumberedFrom n (e ∷ es) = (version e ≡ n) × NumberedFrom (suc n) es

-- The snapshot holds what the events of `pre` add up to.
pub record Captures (id : String) (snap : AccountSnapshot) (pre : List Event) : Type 0 where
  pub same_id : snap.aggregate_id ≡ id
  pub same_balance : snap.balance ≡ (replay_account id pre).balance
  pub same_reserved : snap.reserved_balance ≡ (replay_account id pre).reserved_balance
  pub covers : length pre ≡ suc snap.as_of_sequence

pub fold_all-append :
    (a : Account) (xs ys : List Event) → fold_all a (xs ++ ys) ≡ fold_all (fold_all a xs) ys
unfolding fold_all
fold_all-append a [] ys = refl
fold_all-append a (x ∷ xs) ys = fold_all-append (fold a x) xs ys

fold_frame :
    (a : Account) (e : Event)
    → ((fold a e).id ≡ a.id) × ((fold a e).available_balance ≡ a.available_balance)
unfolding fold
fold_frame a e = ground arith

fold_all_frame :
    (a : Account) (es : List Event)
    → ((fold_all a es).id ≡ a.id) × ((fold_all a es).available_balance ≡ a.available_balance)
unfolding fold_all
fold_all_frame a [] = (refl, refl)
fold_all_frame a (e ∷ es) = ground (arith, fold_frame a e, fold_all_frame (fold a e) es)

fold_after_skips :
    (n cutoff : ℕ) (a : Account) (pre post : List Event)
    → NumberedFrom n (pre ++ post)
    → n + length pre ≤ suc cutoff
    → fold_after cutoff a (pre ++ post) ≡ fold_after cutoff a post
unfolding fold_after
fold_after_skips n cutoff a [] post h b = refl
fold_after_skips n cutoff a (e ∷ pre) post h b =
    ground (arith, fold_after_skips (suc n) cutoff a pre post)

fold_after_folds :
    (n cutoff : ℕ) (a : Account) (post : List Event)
    → NumberedFrom n post
    → suc cutoff ≤ n
    → fold_after cutoff a post ≡ fold_all a post
unfolding fold_after fold_all
fold_after_folds n cutoff a [] h b = refl
fold_after_folds n cutoff a (e ∷ post) h b =
    ground (arith, fold_after_folds (suc n) cutoff (fold a e) post)

pub NumberedFrom-append_left :
    (n : ℕ) (pre post : List Event) → NumberedFrom n (pre ++ post) → NumberedFrom n pre
NumberedFrom-append_left n [] post h = tt
NumberedFrom-append_left n (e ∷ pre) post h = (h.0, NumberedFrom-append_left (suc n) pre post h.1)

pub NumberedFrom-append_right :
    (n : ℕ) (pre post : List Event)
    → NumberedFrom n (pre ++ post)
    → NumberedFrom (n + length pre) post
NumberedFrom-append_right n [] post h = let e : n + 0 ≡ n = omega arith in rw e h
NumberedFrom-append_right n (e ∷ pre) post h =
    let same : n + suc (length pre) ≡ suc n + length pre = omega arith in
    rw same (NumberedFrom-append_right (suc n) pre post h.1)

resumed_lem :
    (id : String) (snap : AccountSnapshot) (pre : List Event)
    → Captures id snap pre
    → resumed id snap ≡ fold_all (empty_account id) pre
unfolding replay_account
resumed_lem id snap pre c =
    ground (arith, fold_all_frame (empty_account id) pre, c.same_balance, c.same_reserved)

-- For a stream whose events carry their positions, reading from a snapshot of any of its prefixes
-- gives the same account as replaying every event.
pub replay-snapshot :
    (id : String) (snap : AccountSnapshot) (pre post : List Event)
    → NumberedFrom 0 (pre ++ post)
    → Captures id snap pre
    → replay_account_from id (some snap) (pre ++ post) ≡ replay_account id (pre ++ post)
unfolding replay_account
replay-snapshot id snap pre post h c =
    let k = snap.as_of_sequence in
    let skip = fold_after_skips 0 k (resumed id snap) pre post h (omega (arith, c.covers)) in
    let tail =
      fold_after_folds (0 + length pre) k (resumed id snap) post
        (NumberedFrom-append_right 0 pre post h) (omega (arith, c.covers)) in
    ground (
      arith,
      str_eq_self id,
      c.same_id,
      skip,
      tail,
      resumed_lem id snap pre c,
      fold_all-append (empty_account id) pre post,
    )

-- A snapshot that holds more events than were loaded gives the account of the events it holds.
pub replay-covered :
    (id : String) (snap : AccountSnapshot) (es more : List Event)
    → NumberedFrom 0 (es ++ more)
    → Captures id snap (es ++ more)
    → replay_account_from id (some snap) es ≡ replay_account id (es ++ more)
unfolding replay_account fold_after
replay-covered id snap es more h c =
    let k = snap.as_of_sequence in
    let within : 0 + length es ≤ suc k = omega (arith, length-append es more, c.covers) in
    let skip : fold_after k (resumed id snap) es ≡ resumed id snap =
      ap (fold_after k (resumed id snap)) (sym (append-nil es))
      ∙ fold_after_skips 0 k (resumed id snap) es []
          (subst (NumberedFrom 0) (sym (append-nil es)) (NumberedFrom-append_left 0 es more h))
          within in
    ground (arith, str_eq_self id, c.same_id, skip, resumed_lem id snap (es ++ more) c)
