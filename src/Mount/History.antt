-- ===== src/Mount/History.antt =====
-- What a session holds depends only on the loop disks that are mounted when it ends.
use mount.Prelude.{ℕ, ◌+◌, ◌≤◌, ◌≡◌, sym, ◌∙◌, none, arith}
use mount.Efi.{Ptr, Firmware, State, allocs, frees, opens, closes, PoolBalanced}
use mount.Mount.Machine.{IsMachine}
use mount.LoopDxe.Factory.Ledger.Unordered.{owned_unique, backed_unique}
use mount.Mount.Session.{Sessions, handed_over, Sessions-Settles}

module _ (fw : Firmware) (rounds : ℕ) (laws : IsMachine fw rounds) (s : State)
    (sane : (q : Ptr) → frees q s.log ≤ allocs q s.log)
    (none_yet : (q : Ptr) → s.disks q ≡ none) where
  -- If LocateHandleBuffer returns a buffer exactly when it succeeds, one of the first `rounds` fs
  -- names is free at any time, pool allocation returns NULL or an address that is free, no memory
  -- but a loop disk carries the signature of one, and AppendDevicePathNode appends, then two
  -- sessions (runs of `mount` with any arguments, calls of the driver, and steps of others that
  -- leave the disks alone and give back what they take) from one state without loop disks, in which
  -- no address is freed more often than allocated, to states with the same loop disks hold the same
  -- memory, whatever they mounted and unmounted, in what order, and whatever failed. They hold the
  -- same files too, but for those that other clients handed in by successful creations or were
  -- given up by their successful destructions. With the empty session as one of the two: when no
  -- disk is left, all memory is freed.
  pub Sessions-history_free :
      {t t' : State} (session : Sessions fw rounds s t) (session' : Sessions fw rounds s t')
      → ((q : Ptr) → t.disks q ≡ t'.disks q)
      → (q : Ptr)
      → let c = handed_over fw rounds session in
        let c' = handed_over fw rounds session' in
        (allocs q t.log + frees q t'.log ≡ frees q t.log + allocs q t'.log)
        × (opens q t.log + closes q t'.log + c.given q + c'.returned q
            ≡ closes q t.log + opens q t'.log + c.returned q + c'.given q)
  Sessions-history_free session session' same q =
      let (l, _, r, files) = Sessions-Settles fw rounds laws s sane none_yet session in
      let (m, _, r', files') = Sessions-Settles fw rounds laws s sane none_yet session' in
      let owned = owned_unique r r' same q in
      let backed = backed_unique r r' same q in
      (omega (arith, r.memory q, r'.memory q, owned), omega (arith, files q, files' q, backed))

  -- With the empty session: from a state without loop disks to one without, all memory is freed.
  pub Sessions-PoolBalanced :
      {t : State} → Sessions fw rounds s t → ((q : Ptr) → t.disks q ≡ none) → PoolBalanced s t
  Sessions-PoolBalanced session gone q =
      let (pool, _) =
        Sessions-history_free session Sessions.here (λ p. gone p ∙ sym (none_yet p)) q in
      omega (arith, pool)
