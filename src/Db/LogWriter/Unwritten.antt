-- ===== src/Db/LogWriter/Unwritten.antt =====
-- `commit` of src/db/log_writer.h makes the task of `submit` and drops it. Tasks of folly are lazy:
-- one that is not awaited does nothing.
use mathlib.Core.Path.{subst}
use qstorage.Prelude.{
  ℕ, ◌≡◌, refl, sym, ap, ◌∙◌, Bool, true, false, Bool-cases, inl, inr, Option, none, some, List, [],
  ◌∷◌, ◌++◌, All, All-change, length, arith, ◌==◌, if◌then◌else◌, if_true, if_false,
}
use qstorage.Prelude.Words.{sub64}
use qstorage.Infra.Serialize.{Endian}
use qstorage.Db.SpRingBuffer.{Ring, request_write_space}
use qstorage.Infra.Task.{BatonOps, MutexOps}
use qstorage.Db.LogWriter.{Writers, WriteTask, Write, LogWriter, set_writers}
use qstorage.Db.LogWriter.Calls.{
  Call, TaskOps, with_space, allocate, headed, cleared, write_group, advance, resumes,
}
use qstorage.Db.LogWriter.Steps.{
  Fresh, Event, Reach, Waits, runs, leads, follows, opens, completes, start, later,
}

module _ {B X : Type 0} (batons : BatonOps B) (mutex : MutexOps X) (tasks : TaskOps) (host : Endian)
    (lazy : (w : Write) (ws : List Write) → tasks.dropped w ws ≡ ws) where
  open batons use {ready, posts, ready-new, posts-new}
  open mutex use {acquire}

  record Still (c : Call B) (l : LogWriter B X) : Type 0 where
    waits : Waits batons c
    idle : l.io ≡ []
    silent : (i : ℕ) → ready (l.writers i).completion ≡ false
    unposted : (i : ℕ) → posts (l.writers i).completion ≡ 0

  abbrev After : Option (Call B × LogWriter B X) → Type 0
  After none = Unit
  After (some r) = Still r.0 r.1

  -- The completion of a group does not change when the rest of the group does.
  kept :
      (P : B → Type 0) (ws : ℕ → Writers B) (i : ℕ) (w : Writers B)
      → w.completion ≡ (ws i).completion
      → ((j : ℕ) → P (ws j).completion)
      → (j : ℕ) → P (set_writers ws i w j).completion
  kept P ws i w e h j = elim (Bool-cases (i == j)) [
    | inl same ↦
        subst (λ (v : Writers B). P v.completion) (sym (if_true _ _ _ same)) (subst P (sym e) (h i))
    | inr other ↦ subst (λ (v : Writers B). P v.completion) (sym (if_false _ _ _ other)) (h j)
  ]

  regrouped :
      (c c' : Call B) (l l' : LogWriter B X) (i : ℕ) (w : Writers B)
      → Still c l
      → Waits batons c'
      → l'.io ≡ l.io
      → l'.writers ≡ set_writers l.writers i w
      → w.completion ≡ (l.writers i).completion
      → Still c' l'
  regrouped c c' l l' i w s waits io ws e = record {
    waits = waits;
    idle = io ∙ s.idle;
    silent =
        subst (λ (v : ℕ → Writers B). (j : ℕ) → ready (v j).completion ≡ false) (sym ws)
          (kept (λ b. ready b ≡ false) l.writers i w e s.silent);
    unposted =
        subst (λ (v : ℕ → Writers B). (j : ℕ) → posts (v j).completion ≡ 0) (sym ws)
          (kept (λ b. posts b ≡ 0) l.writers i w e s.unposted);
  }

  same_groups :
      (c c' : Call B) (l l' : LogWriter B X)
      → Still c l
      → Waits batons c'
      → l'.io ≡ l.io
      → l'.writers ≡ l.writers
      → Still c' l'
  same_groups c c' l l' s waits io ws = record {
    waits = waits;
    idle = io ∙ s.idle;
    silent =
        subst (λ (v : ℕ → Writers B). (j : ℕ) → ready (v j).completion ≡ false) (sym ws) s.silent;
    unposted =
        subst (λ (v : ℕ → Writers B). (j : ℕ) → posts (v j).completion ≡ 0) (sym ws) s.unposted;
  }

  if-After :
      (b : Bool) (r : Call B × LogWriter B X) → Still r.0 r.1 → After (if b then some r else none)
  if-After true r a = a
  if-After false r a = tt

  never-After :
      (b : Bool) (r : Call B × LogWriter B X) → b ≡ false → After (if b then some r else none)
  never-After b r e = subst After (sym (if_false _ _ _ e)) tt

  acquired-After :
      (size aw_index : ℕ) (l : LogWriter B X) (o : Option X)
      → Still (Call.locking size aw_index) l
      → After (elim o [
        | none ↦ none
        | some lock ↦ some (Call.allocating size aw_index, record l { lock = lock })
      ])
  acquired-After size aw_index l none s = tt
  acquired-After size aw_index l (some lock) s =
      same_groups (Call.locking size aw_index) (Call.allocating size aw_index) l
        (record l { lock = lock }) s tt refl refl

  with_space-After :
      (size aw_index : ℕ) (l : LogWriter B X) (r : Option ℕ × Ring)
      → Still (Call.allocating size aw_index) l
      → After (some (with_space batons mutex tasks host size aw_index l r))
  unfolding with_space
  with_space-After size aw_index l (none, buffer) s =
      regrouped (Call.allocating size aw_index) _ l _ aw_index _ s tt refl refl refl
  with_space-After size aw_index l (some addr, buffer) s =
      regrouped (Call.allocating size aw_index) _ l _ aw_index _ s tt refl refl refl

  headed-After :
      (c : Call B) (task : WriteTask) (l : LogWriter B X) (o : Option (ℕ → ℕ))
      → Still c l
      → After (some (headed batons mutex tasks host task l o))
  unfolding headed
  headed-After c task l none s = same_groups c Call.faulted l l s tt refl refl
  headed-After c task l (some mem) s = same_groups c (Call.copying task) l _ s tt refl refl

  cleared-After :
      (task : WriteTask) (l : LogWriter B X) (o : Option (ℕ → ℕ))
      → Still (Call.copying task) l
      → After (some (cleared batons mutex tasks host task l o))
  unfolding cleared
  cleared-After task l none s = same_groups (Call.copying task) Call.faulted l l s tt refl refl
  cleared-After task l (some mem) s =
      same_groups (Call.copying task) (Call.committing task batons.new_baton) l _ s ready-new
        (lazy _ l.io) refl

  advance-After :
      (c : Call B) (l : LogWriter B X) → Still c l → After (advance batons mutex tasks host c l)
  unfolding advance allocate write_group
  advance-After (Call.malloc size) l s = same_groups (Call.malloc size) _ l l s tt refl refl
  advance-After (Call.locking size aw_index) l s = acquired-After size aw_index l (acquire l.lock) s
  advance-After (Call.allocating size aw_index) l s =
      with_space-After size aw_index l (request_write_space l.buffer size) s
  advance-After (Call.starved size since) l s =
      if-After (resumes batons mutex tasks host l.memory_notify since) _
        (same_groups (Call.starved size since) _ l _ s tt refl refl)
  advance-After (Call.leading task crc len since) l s =
      let c = Call.leading task crc len since in
      let alone : LogWriter B X = record l { notify_leader = batons.reset l.notify_leader } in
      if-After (resumes batons mutex tasks host l.notify_leader since) _
        (headed-After c task alone _ (same_groups c c l alone s tt refl refl))
  advance-After (Call.copying task) l s =
      if-After ((l.writers task.index).completed_copy == sub64 (l.writers task.index).count 1) _
        (cleared-After task l _ s)
  advance-After (Call.committing task baton) l s = never-After (ready baton) _ s.waits
  advance-After (Call.posting task) l s = absurd s.waits
  advance-After (Call.resetting task) l s = absurd s.waits
  advance-After (Call.releasing task) l s = absurd s.waits
  advance-After Call.waking l s = absurd s.waits
  advance-After (Call.following task) l s =
      regrouped (Call.following task) _ l _ task.index _ s tt refl refl refl
  advance-After (Call.followed task since) l s =
      never-After (resumes batons mutex tasks host (l.writers task.index).completion since) _
        (ground (arith, s.silent task.index, s.unposted task.index))
  advance-After (Call.allocated task) l s = tt
  advance-After Call.led l s = tt
  advance-After Call.done l s = tt
  advance-After Call.faulted l s = tt

  Event-Still :
      (c c' : Call B) (l l' : LogWriter B X)
      → Event batons mutex tasks host c c' l l'
      → Still c l
      → Still c' l'
  Event-Still _ _ _ _ (runs c c' l l' e) s = subst After e (advance-After c l s)
  Event-Still _ _ _ _ (leads task crc len l y) s = same_groups _ _ l l s tt refl refl
  Event-Still _ _ _ _ (follows task l y) s = same_groups _ _ l l s tt refl refl
  Event-Still _ _ _ _ (opens c l) s = same_groups c c l _ s s.waits refl refl
  Event-Still _ _ _ _ (completes task baton l w ws e) s =
      absurd (omega (arith, ap length (sym e ∙ s.idle)))

  record AllStill (cs : List (Call B)) (l : LogWriter B X) : Type 0 where
    waits : All (Waits batons) cs
    idle : l.io ≡ []
    silent : (i : ℕ) → ready (l.writers i).completion ≡ false
    unposted : (i : ℕ) → posts (l.writers i).completion ≡ 0

  Fresh-Waits : (cs : List (Call B)) → All Fresh cs → All (Waits batons) cs
  Fresh-Waits [] h = tt
  Fresh-Waits (c ∷ cs) h = (subst (Waits batons) (sym h.0.1) tt, Fresh-Waits cs h.1)

  Reach-AllStill :
      (mem : ℕ → ℕ) (base : ℕ) (cs : List (Call B)) (l : LogWriter B X)
      → Reach batons mutex tasks host mem base cs l
      → AllStill cs l
  Reach-AllStill mem base _ _ (start cs calls) = record {
    waits = Fresh-Waits cs calls;
    idle = refl;
    silent = λ i. ready-new;
    unposted = λ i. posts-new;
  }
  Reach-AllStill mem base _ _ (later front c c' back k l r e) =
      let before = Reach-AllStill mem base (front ++ c ∷ back) k r in
      let still : Still c k = record {
        waits = (All-change (Waits batons) front c (Call.malloc 0) back before.waits tt).0;
        idle = before.idle;
        silent = before.silent;
        unposted = before.unposted;
      } in
      let s = Event-Still c c' k l e still in
      record {
        waits = (All-change (Waits batons) front c c' back before.waits s.waits).1;
        idle = s.idle;
        silent = s.silent;
        unposted = s.unposted;
      }

  -- If a task that is dropped does nothing, then no write is ever queued, and no call of
  -- `LeaderComplete` or `FollowerComplete` ever returns, however the calls interleave.
  pub Reach-unwritten :
      (mem : ℕ → ℕ) (base : ℕ) (cs : List (Call B)) (l : LogWriter B X)
      → Reach batons mutex tasks host mem base cs l
      → All (Waits batons) cs × (l.io ≡ [])
  Reach-unwritten mem base cs l r = let s = Reach-AllStill mem base cs l r in (s.waits, s.idle)
