-- ===== src/LoopDisk/SelfTest/Bounded.antt =====
-- The self test of loop devices keeps the loop disks well formed and small enough.
use mount.Prelude.{ap, sym, ◌∙◌, inl, inr, Bool, true, false, ◌==◌, Bool-cases, Text, if◌then◌else◌}
use mount.Efi.{efi_success, Ptr, Handle, Firmware, State, ReportsSizes, pure}
use mount.LoopDxe.Factory.{loop_factory_destroy}
use mount.LoopDxe.Factory.Bounded.{AllBounded, Neutral-AllBounded, destroy-AllBounded}
use mount.LoopDxe.Factory.Create.{Appends}
use mount.LoopDisk.Factory.{mount_loop_factory_get}
use mount.LoopDisk.Create.{loop_create}
use mount.LoopDisk.Create.Bounded.{loop_create-AllBounded}
use mount.LoopDisk.Create.Parts.{mount_loop_factory_get-Neutral}
use mount.LoopDisk.Create.Ownership.{FreshPool}
use mount.LoopDisk.SelfTest.{
  selftest_path, check_loop, destroy_loop, round_trip, loop_disk_self_test,
}
use mount.LoopDisk.SelfTest.Table.{loop_disk_self_test-table}
use mount.LoopDisk.SelfTest.Mounts.{check_loop-Neutral}

module _ (fw : Firmware) (appends : Appends fw) (sizes : ReportsSizes fw) (full : Text) where
  destroy_loop-AllBounded :
      (handle : Handle) (ok : Bool) (s : State)
      → AllBounded s
      → AllBounded (destroy_loop fw full handle ok s).1
  unfolding destroy_loop
  destroy_loop-AllBounded handle ok s h =
      let (status, t) = mount_loop_factory_get fw full s in
      let there = Neutral-AllBounded s t (mount_loop_factory_get-Neutral fw full s) h in
      let gone = destroy-AllBounded fw t handle true there in
      elim (Bool-cases (status == efi_success)) [
        | inr absent ↦ rw absent there
        | inl found ↦
            rw found
              (elim (Bool-cases ((loop_factory_destroy fw handle true t).0.0 == efi_success)) [
                | inl done ↦ rw done gone
                | inr failed ↦ rw failed gone
              ])
      ]

  round_trip-AllBounded :
      (b : Ptr) (s : State) → FreshPool fw s → AllBounded s → AllBounded (round_trip fw full b s).1
  unfolding round_trip
  round_trip-AllBounded b s fresh h =
      let ((status, loop), t) = loop_create fw selftest_path full s in
      let made = loop_create-AllBounded fw appends sizes selftest_path full s fresh h in
      let ending : (ok : Bool) (u : State)
          → AllBounded u
          → AllBounded
              ((if loop.handle == 0 then pure ok else destroy_loop fw full loop.handle ok) u).1 =
        λ ok u k. elim (Bool-cases (loop.handle == 0)) [
          | inl null ↦ rw null k
          | inr live ↦ rw live (destroy_loop-AllBounded loop.handle ok u k)
        ] in
      elim (Bool-cases (status == efi_success)) [
        | inr failed ↦ rw failed (ending false t made)
        | inl done ↦
            let (ok, u) = check_loop fw loop.handle b t in
            rw done
              (ending ok u (Neutral-AllBounded t u (check_loop-Neutral fw loop.handle b t) made))
      ]

  pub loop_disk_self_test-AllBounded :
      (s : State) → FreshPool fw s → AllBounded s → AllBounded (loop_disk_self_test fw full s).1
  loop_disk_self_test-AllBounded s fresh h p disk e =
      elim (loop_disk_self_test-table fw full s fresh) [
        | inl same ↦ h p disk (ap (λ table. table p) (sym same) ∙ e)
        | inr (b, u, fresh', before, after) ↦
            round_trip-AllBounded b u fresh'
              (λ q d at. h q d (ap (λ table. table q) (sym before) ∙ at)) p disk
              (ap (λ table. table p) (sym after) ∙ e)
      ]
