-- ===== src/Nodes/Pick/Contract.antt =====
-- The contract of `pickLeastLoadedNode`.
use mathlib.Core.Path.{subst}
use mathlib.Core.Bool.{false≢true}
use labforge.Base.{
  ℕ, ◌+◌, ◌<◌, ◌≡◌, refl, sym, ap, ◌∙◌, true, false, Option, none, some, List, [], ◌∷◌, String,
  arith, length, All, Bool-cases, inl, inr, is_some, ◌%◌, ◌==◌, eq_refl, or_else,
}
use labforge.Exec.{ok, pure, gets, modify, ◌>>=◌}
use labforge.Data.{Node}
use labforge.World.{World, Env, date_now}
use labforge.Table.{lookup}
use labforge.Store.{now, ask}
use labforge.Nodes.Pick.{
  load, full, load_map, walk, pool_key, get_cursor, set_cursor, pick_only, take_pick, pick_ring,
  pick_from, candidates, pick_least_loaded_node,
}
use labforge.Nodes.Pick.Ring.{
  StoppedAt, walk-stops, walk-none-full, position_of_all, All-of_positions,
}
use labforge.Nodes.Pick.Choice.{
  IsCandidate, cutoff, candidates-All, caps, full-load, pick_from-some, none_if, ok_inj,
}

-- The node that is picked is one of the fleet: enabled, listed where a list is given, not stale at the
-- time of the call, and below its cap.
pub pick-IsCandidate :
    (env : Env) (whitelist : List String) (w : World) (n : Node)
    → (pick_least_loaded_node env whitelist w).0 ≡ ok (some n)
    → IsCandidate env whitelist w n × (full (load w) n ≡ false)
unfolding pick_least_loaded_node candidates load now ask ◌>>=◌
pick-IsCandidate env whitelist w n h =
    pick_from-some (IsCandidate env whitelist w) (record w { calls = date_now ∷ w.calls }) whitelist
      (candidates env (cutoff env w) whitelist w) n (candidates-All env whitelist w) h

module _ (w : World) where
  full_really :
      (ring : List Node)
      → All (λ m. full (load_map ring w) m ≡ true) ring
      → All (λ m. full (load w) m ≡ true) ring
  full_really ring h = All-of_positions _ ring λ i x e.
      sym (full-load ring w x (position_of_all _ ring i x (caps ring) e))
      ∙ position_of_all (λ m. full (load_map ring w) m ≡ true) ring i x h e

  take_none :
      (key : String) (ring : List Node) (o : Option (ℕ × Node))
      → 0 < length ring
      → walk (load_map ring w) ring (get_cursor key w) (length ring) 0 ≡ o
      → (take_pick key (length ring) o w).0 ≡ ok none
      → All (λ m. full (load w) m ≡ true) ring
  unfolding take_pick pure ◌>>=◌
  take_none key ring none pos e h =
      full_really ring (walk-none-full (load_map ring w) ring (get_cursor key w) pos e)
  take_none key ring (some (idx, m)) pos e h = absurd (false≢true (ap is_some (ok_inj _ _ (sym h))))

  pick_from-none :
      (whitelist : List String) (ring : List Node)
      → (pick_from whitelist ring w).0 ≡ ok none
      → All (λ m. full (load w) m ≡ true) ring
  unfolding pick_from pick_ring pick_only pure gets ◌>>=◌
  pick_from-none whitelist [] h = tt
  pick_from-none whitelist (m ∷ []) h = (none_if (full (load w) m) m (ok_inj _ _ h), tt)
  pick_from-none whitelist (m ∷ k ∷ ks) h =
      take_none (pool_key whitelist) (m ∷ k ∷ ks) _ (omega arith) refl h

-- Where no node is picked, every candidate is at its cap.
pub pick-none-full :
    (env : Env) (whitelist : List String) (w : World)
    → (pick_least_loaded_node env whitelist w).0 ≡ ok none
    → All (λ m. full (load w) m ≡ true) (candidates env (cutoff env w) whitelist w)
unfolding pick_least_loaded_node candidates load now ask ◌>>=◌
pick-none-full env whitelist w h =
    pick_from-none (record w { calls = date_now ∷ w.calls }) whitelist
      (candidates env (cutoff env w) whitelist w) h

stored : (key : String) (c : ℕ) (w : World) → get_cursor key (set_cursor key c w) ≡ c
unfolding get_cursor set_cursor lookup
stored key c w = elim (Bool-cases (key == "__all__")) [
  | inl a ↦ rw a refl
  | inr b ↦ rw (b, eq_refl key) refl
]

module _ (key : String) (ring : List Node) (w : World) (n : Node) where
  turn :
      (o : Option (ℕ × Node))
      → walk (load_map ring w) ring (get_cursor key w) (length ring) 0 ≡ o
      → (take_pick key (length ring) o w).0 ≡ ok (some n)
      → (idx : ℕ) × StoppedAt (load_map ring w) ring (get_cursor key w) 0 (length ring) idx n
        × (get_cursor key (take_pick key (length ring) o w).1 ≡ (idx + 1) % length ring)
  unfolding take_pick pure modify ◌>>=◌
  turn none e h = absurd (false≢true (ap is_some (ok_inj _ _ h)))
  turn (some (idx, m)) e h =
      let same : m ≡ n = ap (λ o. or_else o m) (ok_inj _ _ h) in
      let stop = walk-stops (load_map ring w) ring (get_cursor key w) (length ring) 0 idx m e in
      (
        idx,
        subst (StoppedAt (load_map ring w) ring (get_cursor key w) 0 (length ring) idx) same stop,
        stored key ((idx + 1) % length ring) w,
      )

-- The walk picks the first candidate with room, counted round the ring from the cursor, and the cursor
-- then stands just behind the pick, so that the next walk starts there.
pub pick_ring-turns :
    (key : String) (ring : List Node) (w : World) (n : Node)
    → (pick_ring key ring w).0 ≡ ok (some n)
    → (idx : ℕ) × StoppedAt (load_map ring w) ring (get_cursor key w) 0 (length ring) idx n
      × (get_cursor key (pick_ring key ring w).1 ≡ (idx + 1) % length ring)
unfolding pick_ring gets ◌>>=◌
pick_ring-turns key ring w n h =
    turn key ring w n (walk (load_map ring w) ring (get_cursor key w) (length ring) 0) refl h
