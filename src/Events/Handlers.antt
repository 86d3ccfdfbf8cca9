-- ===== src/Events/Handlers.antt =====
-- The body of the event thread's loop: the handlers, called one after the other.
use broadcom_bcm4312_fix.Prelude.{Option, [], none, some, ◌∷◌, ◌≡◌}
use broadcom_bcm4312_fix.Link.{EventMsg, wl_notify_mic_status}
use broadcom_bcm4312_fix.Headers.{Status, ok}
use broadcom_bcm4312_fix.State.{M, Platform, World, pure, ◌>>=◌}
use broadcom_bcm4312_fix.Events.{
  EventQueue, Handler, QueuedEvent, connect_status, handle_all, handle_event, handler_of,
  mic_status, roaming_status, run_handler, scan_status,
}
use broadcom_bcm4312_fix.Scan.Total.{Limited, wl_notify_scan_status-Total}
use broadcom_bcm4312_fix.Link.Total.{wl_notify_connect_status-Total, wl_notify_roaming_status-Total}
use broadcom_bcm4312_fix.State.Total.{Total, bind-Total, emit-Total, pure-Total, runs}
use broadcom_bcm4312_fix.Iovar.Laws.{MkiovarFits}

module _ (x : Platform) (fits : MkiovarFits x) (lim : Limited x) where
  run_handler-Total : (h : Handler) (e : EventMsg) → Total (run_handler x h e)
  unfolding run_handler wl_notify_mic_status
  run_handler-Total scan_status e = wl_notify_scan_status-Total x lim
  run_handler-Total connect_status e = wl_notify_connect_status-Total x fits e
  run_handler-Total roaming_status e = wl_notify_roaming_status-Total x fits e
  run_handler-Total mic_status e = emit-Total _

  handle_event-Total : (q : QueuedEvent) → Total (handle_event x q)
  unfolding handle_event
  handle_event-Total q = through (handler_of q.etype)
    where
      through :
          (h : Option Handler)
          → Total (elim h as (λ t. M Status) [
            | none ↦ pure ok
            | some h ↦ run_handler x h q.emsg >>= λ _. pure ok
          ])
      through none = pure-Total ok
      through (some h) = bind-Total _ _ (run_handler-Total h q.emsg) (λ _. pure-Total ok)

  handle_all-Total : (q : EventQueue) → Total (handle_all x q)
  unfolding handle_all
  handle_all-Total [] = pure-Total ok
  handle_all-Total (e ∷ q) = bind-Total _ _ (handle_event-Total e) (λ _. handle_all-Total q)

-- Where bcm_mkiovar has room and the kernel's allocator refuses 2 ^ 31 bytes, the event thread works off
-- every queue of events, whatever the firmware answers: none of the handlers stops in BUG().
pub handle_all_returns :
    (x : Platform) (q : EventQueue) (w : World)
    → MkiovarFits x
    → Limited x
    → (s : Status) × (w' : World) × (handle_all x q w ≡ some (s, w'))
handle_all_returns x q w fits lim = runs _ (handle_all-Total x fits lim q) w
