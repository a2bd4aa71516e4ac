-- ===== src/Broker/Flow.antt =====
-- src/daemon/broker.rs: flow control of the screen updates, and what `advance` renders.
use super_herdr.Common.{
  ℕ, ◌≤◌, ◌<◌, ◌≡◌, refl, Bool, true, false, none, some, List, [], ◌∷◌, inl, inr, arith,
}
use super_herdr.Common.Tests.{◌==◌, next_u64, Bool-cases}
use super_herdr.Common.Lists.{length, any, All}
use super_herdr.Screen.{Diff, apply}
use super_herdr.Screen.Diffs.{IsSnapshot, apply-between}
use super_herdr.Screen.Render.{Vt100, snapshot_of, snapshot_of-IsSnapshot}
use super_herdr.Broker.State.{ScreenState, Rendered}
use super_herdr.Broker.Screens.{same_screen, fed, advance, settle}

pub settle-length-le :
    (sequence : ℕ) (outstanding : List ℕ)
    → length (settle sequence outstanding) ≤ length outstanding
unfolding settle
settle-length-le sequence [] = omega arith
settle-length-le sequence (held ∷ rest) = ground (arith, settle-length-le sequence rest)

-- Updates are outstanding in the order in which they were sent.
abbrev pub Ascending : List ℕ → Type 0
Ascending [] = Unit
Ascending (held ∷ rest) = All (λ later. held < later) rest × Ascending rest

later_lt :
    (held sequence : ℕ) (rest : List ℕ)
    → All (λ later. held < later) rest
    → any (λ later. later == sequence) rest ≡ true
    → held < sequence
later_lt held sequence [] a h = ground arith
later_lt held sequence (later ∷ rest) a h = ground (arith, a.0, later_lt held sequence rest a.1)

-- Acknowledging an update that is outstanding, where the outstanding ones ascend, settles at least
-- one of them.
pub settle_progress :
    (sequence : ℕ) (outstanding : List ℕ)
    → Ascending outstanding
    → any (λ held. held == sequence) outstanding ≡ true
    → length (settle sequence outstanding) < length outstanding
unfolding settle
settle_progress sequence [] a h = ground arith
settle_progress sequence (held ∷ rest) a h =
    ground (arith, later_lt held sequence rest a.0, settle-length-le sequence rest)

-- What a frame should come to, from the screen that was kept before.
abbrev pub Renders : {Parser : Type 0} → ScreenState Parser → ScreenState Parser × Rendered → Type 0
Renders state (state', rendered) =
    (state'.last ≡ rendered.screen)
    × ((rendered.changed ≡ false → state'.last ≡ state.last)
        × ((diff : Diff) → rendered.diff ≡ some diff → apply state.last diff ≡ (state'.last, none)))

-- Where the screen that is kept has a row for each line, a frame, whatever its bytes and its size,
-- leaves the broker with the screen that it reports; unless that changed, it is the screen that was
-- kept before; and a difference that comes with it, applied by a viewer that holds the earlier
-- screen, yields exactly the new one.
pub advance-Renders :
    {Parser : Type 0} (vt : Vt100 Parser) (width height : ℕ) (full : Bool) (bytes : List ℕ)
    (state : ScreenState Parser)
    → IsSnapshot state.last
    → Renders state (advance vt width height full bytes state)
unfolding advance
advance-Renders vt width height full bytes state v =
    let parser = fed vt width height full bytes state.parser in
    let candidate = snapshot_of vt parser (next_u64 state.last.sequence) in
    elim (Bool-cases (same_screen candidate state.last)) [
      | inl same ↦ rw (same, advance) (refl, ((λ e. refl), λ diff e. absurd (ground arith)))
      | inr differ ↦
          rw (differ, advance)
            (
              refl,
              (
                (λ e. absurd (ground arith)),
                λ diff e.
                    apply-between state.last candidate v (snapshot_of-IsSnapshot vt parser _) e,
              ),
            )
    ]
