-- ===== src/Queue/Realtime/Laws.antt =====
-- When the page refetches after a reconnection, and when it polls.
use affiliate_platform_api.Prelude.{
  List, String, [], arith, false, refl, some, true, ℕ, ◌+◌, ◌≡◌, ◌∷◌, length, length-append, ◌==◌,
  one_if,
}
use affiliate_platform_api.Queue.Realtime.{
  QueueEventStreamStatus, Realtime, connected, connecting, disconnected, error, fallback, key_of,
  on_status, on_statuses,
}

abbrev pub connections : List QueueEventStreamStatus → ℕ
connections [] = 0
connections (connected ∷ rest) = connections rest + 1
connections (connecting ∷ rest) = connections rest
connections (disconnected ∷ rest) = connections rest
connections (error ∷ rest) = connections rest

connections-cons :
    (status : QueueEventStreamStatus) (rest : List QueueEventStreamStatus)
    → connections (status ∷ rest) ≡ connections (status ∷ []) + connections rest
connections-cons connected rest = omega arith
connections-cons connecting rest = omega arith
connections-cons disconnected rest = omega arith
connections-cons error rest = omega arith

module _ (w : String) (named : (w == "") ≡ false) where
  -- One rendered status, in a workspace: what is kept, and whether it polls.
  step_count :
      (status : QueueEventStreamStatus) (r : Realtime)
      → r.saw_connecting ≡ true
      → (let r' : Realtime = on_status status true (some w) r in
          (length r'.refetched + one_if r'.established
            ≡ length r.refetched + one_if r.established + connections (status ∷ []))
          × (r'.saw_connecting ≡ true)
          × (r'.polling_enabled ≡ fallback status r'.established))
  unfolding on_status
  step_count connecting r h = rw named (omega arith, refl, refl)
  step_count connected r h = rw named (ground (arith, length-append r.refetched (key_of (some w))))
  step_count disconnected r h = rw named (omega arith, h, refl)
  step_count error r h = rw named (omega arith, h, refl)

  -- In a workspace, once the page has seen the stream connect for the first time: each connection
  -- of the rendered statuses either establishes the live session, the first one, or refetches the
  -- queue once, so that no gap is left unfilled and none is filled twice.
  pub on_statuses-refetched :
      (statuses : List QueueEventStreamStatus) (r : Realtime)
      → r.saw_connecting ≡ true
      → (let r' : Realtime = on_statuses statuses true (some w) r in
          length r'.refetched + one_if r'.established
          ≡ length r.refetched + one_if r.established + connections statuses)
  unfolding on_statuses on_status
  on_statuses-refetched [] r h = omega arith
  on_statuses-refetched (status ∷ rest) r h =
      let (now, seen, _) = step_count status r h in
      omega (
        arith,
        now,
        on_statuses-refetched rest (on_status status true (some w) r) seen,
        connections-cons status rest,
      )
