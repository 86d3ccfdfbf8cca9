-- ===== src/Linux/Power/Queues.antt =====
-- The queues of the interfaces while a device is taken down and up (src/wl/sys/wl_linux.c).
use broadcom_bcm4312_fix.Prelude.{Bool, false, not, ◌&&◌}
use broadcom_bcm4312_fix.Linux.Power.{
  NetIf, Power, PowerGlue, stop_queue, up_call, wl_txflowcontrol,
}
use broadcom_bcm4312_fix.Iw.Monad.{is_zero}

-- An interface as wl_down and then wl_up leave it.
abbrev pub down_up : NetIf → NetIf
down_up i = wl_txflowcontrol false (stop_queue i)

-- What wl_up asks.
abbrev pub comes_up : PowerGlue → Power → Bool
comes_up g s = not s.is_up && is_zero ((g.answer s.events up_call).0)
