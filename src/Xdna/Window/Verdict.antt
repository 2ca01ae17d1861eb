-- ===== src/Xdna/Window/Verdict.antt =====
-- The kernel's verdict on a window next to the reference's.
use xdna_npu_miner.Prelude.{
  ℕ, ◌+◌, ◌<◌, ◌≡◌, refl, ap, ◌∙◌, ◌⊎◌, inl, inr, Bool, ◌&&◌, true, false, ltb, leb, length, get_or,
  arith, Bool-cases, All-get_or, ok, ◌==◌, get_in_range, if◌then◌else◌, ltb→lt, ge_of_ltb,
}
use xdna_npu_miner.Bpp9000.Types.{
  Task, ReferenceConfig, settled, timeout, timeout_score, unknown, Exception,
}
use xdna_npu_miner.Bpp9000.Lut.{Lut}
use xdna_npu_miner.Bpp9000.Network.{Trits, Watch}
use xdna_npu_miner.Bpp9000.Network.Watching.{IsBounded, watch-IsBounded}
use xdna_npu_miner.Bpp9000.State.Inputs.{make_state_lem, blank}
use xdna_npu_miner.Bpp9000.Score.{WindowResult, score_window}
use xdna_npu_miner.Bpp9000.Score.Window.{IsRunOf, window_loop_lem}
use xdna_npu_miner.Bpp9000.Score.Meaning.{
  CanScore, CanScore-IsScorable, CanScore-IsReady, network_window, meaning, score_window_lem,
}
use xdna_npu_miner.Xdna.Window.{KernelInput, KernelResult, kernel_result, kernel_loop, window_mode}
use xdna_npu_miner.Xdna.Window.Loop.{IsInputFor, FitsKernel, kernel_loop_lem}

-- The kernel's targets are the outputs from row `start` on.
pub record HasTargets (task : Task) (config : ReferenceConfig) (start : ℕ) (input : KernelInput)
    : Type 0 where
  pub enough : config.window_width < length input.targets
  pub target :
      get_or input.targets config.window_width 0
      ≡ get_or task.outputs (start + config.window_width) 0

-- Both agree, or the ticks ran out after the last row was fed, and the kernel scores a window that
-- the reference times out.
abbrev pub Agrees : ReferenceConfig → Watch → KernelResult → WindowResult → Type 0
Agrees config w r reference =
    ((r.status ≡ reference.score.status) × (r.score ≡ reference.score.score))
    ⊎ ((w.done ≡ false)
        × (w.fed ≡ config.window_width)
        × (r.status ≡ settled)
        × (reference.score.status ≡ timeout))

and-false : (b : Bool) → (b && false) ≡ false
and-false true = refl
and-false false = refl

result_lem :
    (task : Task) (config : ReferenceConfig) (start : ℕ) (input : KernelInput) (w : Watch)
    → IsBounded task config.window_width config.max_ticks w
    → HasTargets task config start input
    → input.window_width ≡ config.window_width
    → input.max_ticks ≡ config.max_ticks
    → input.output_neuron ≡ get_or task.topology.output_neurons 0 0
    → get_or task.topology.output_neurons 0 0 < length w.now
    → (r : KernelResult) × (kernel_result input
          (record { current = w.now; feed_count = w.fed; ticks = w.ticked })
        ≡ ok r)
      × Agrees config w r (meaning task start w)
unfolding kernel_result meaning
result_lem task config start input w b targets width ticks output there =
    let predicted = get_or w.now (get_or task.topology.output_neurons 0 0) 0 in
    let expected = get_or task.outputs (start + w.fed) 0 in
    elim (Bool-cases (ltb w.fed config.window_width)) [
      | inl short ↦
          let open_ : w.done ≡ false = elim (Bool-cases w.done) [
            | inl done ↦
                absurd (omega (arith, b.done_fed done, ltb→lt w.fed config.window_width short))
            | inr spent ↦ spent
          ] in
          let over : leb config.max_ticks w.ticked ≡ true = ground (arith, b.spent open_) in
          (
            record {
              score = timeout_score;
              status = timeout;
              ticks = w.ticked;
              feed_count = w.fed;
              predicted = unknown;
              expected = unknown;
            },
            rw (width, ticks, over, short) refl,
            rw open_ (inl (refl, refl)),
          )
      | inr full ↦
          let fed : w.fed ≡ config.window_width =
            omega (arith, b.fed_le, ge_of_ltb w.fed config.window_width full) in
          let target : get_or input.targets w.fed 0 ≡ expected = rw fed targets.target in
          let score = if predicted == expected then 0 else 1 in
          (
            record {
              score = score;
              status = settled;
              ticks = w.ticked;
              feed_count = w.fed;
              predicted = predicted;
              expected = expected;
            },
            rw
                (
                  width,
                  full,
                  and-false (leb input.max_ticks w.ticked),
                  output,
                  get_in_range {E = Exception} w.now (get_or task.topology.output_neurons 0 0) 0
                      there,
                  get_in_range {E = Exception} input.targets w.fed 0
                      (omega (arith, fed, targets.enough)),
                  target,
                )
                refl,
            elim (Bool-cases w.done) [
              | inl done ↦ rw done (inl (refl, refl))
              | inr spent ↦ rw spent (inr (refl, fed, refl, refl))
            ],
          )
    ]

-- On an accepted task of the kernel's size, with a table built for it, and for a window that lies
-- inside it, let the kernel's input hold the task, the table and the window's rows and targets. Then
-- the window mode from the unknown state succeeds and agrees with `score_window` in status and score,
-- except where the ticks ran out after the last row was fed: there the kernel reports a settled
-- window and the reference a timeout.
pub window_mode_lem :
    (task : Task) (lut : Lut) (config : ReferenceConfig) (start : ℕ) (input : KernelInput)
    (next : Trits)
    → CanScore task lut config
    → FitsKernel task lut
    → start + config.window_width < task.header.shape.sequence_length
    → IsInputFor task lut config start input
    → HasTargets task config start input
    → length next ≡ 64
    → (r : KernelResult) × (reference : WindowResult) × (window_mode input (blank task) next ≡ ok r)
      × (score_window task lut start config ≡ ok reference)
      × Agrees config (network_window task lut config start) r reference
unfolding window_mode network_window
window_mode_lem task lut config start input next c fits inside of targets wide =
    let s = CanScore-IsScorable c in
    let ready = CanScore-IsReady c in
    let (fresh, made, reset, blank_now, for) =
      make_state_lem task s.roles.inputs_in_range s.roles.inputs_distinct in
    let w = network_window task lut config start in
    let (run, ran, run_of) =
      window_loop_lem task lut config start ready s inside config.max_ticks fresh 0 0 for
        (omega arith) (omega (arith, c.ticks_u32)) in
    let run_of' : IsRunOf task run w = rw blank_now at run_of in
    let bounded =
      watch-IsBounded task lut config.window_width start config.max_ticks (blank task) 0 0
        config.max_ticks (omega arith) (omega arith) in
    let size : length w.now ≡ task.header.shape.population =
      rw run_of'.now at run_of'.state_for.current_size in
    let output_in =
      All-get_or _ task.topology.output_neurons 0 0 s.roles.outputs_in_range
        (omega (arith, s.outputs_count)) in
    let (r, result, agrees) =
      result_lem task config start input w bounded targets of.width of.max_ticks of.output
        (omega (arith, size, output_in)) in
    let loop =
      kernel_loop_lem task lut config start input ready s fits inside c.ticks_u32 of
        config.max_ticks fresh next 0 0 for wide (omega arith) in
    let looped : kernel_loop input input.max_ticks (blank task) next 0 0
        ≡ ok (record { current = w.now; feed_count = w.fed; ticks = w.ticked }) =
      ap (λ (t : ℕ). kernel_loop input t (blank task) next 0 0) of.max_ticks
      ∙ rw blank_now at loop in
    (
      r,
      meaning task start w,
      rw looped result,
      score_window_lem task lut config start c inside,
      agrees,
    )
