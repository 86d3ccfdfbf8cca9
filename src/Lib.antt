-- ===== src/Lib.antt =====
-- The two control interfaces of the Broadcom STA driver and its glue to Linux, and what makes them
-- correct.
--
-- The layer (src/wl/sys/wl_cfg80211_hybrid.c and .h) stands between the kernel's cfg80211 and the
-- binary part of the driver. Requests of cfg80211 (scan, connect, keys, power, PMKSA, suspend)
-- become ioctls and named variables of the firmware; events of the firmware go through a queue to a
-- thread, whose handlers report scan results, connections, roaming and lost links to cfg80211. Both
-- sides share struct wl_cfg80211_priv.
--
-- How the code is written down:
-- - Headers and Headers/Commands: structures and constants of src/include/wlioctl.h and of the
--   layer's header; symbols such as cipher suites are data types.
-- - State: `Priv` is struct wl_cfg80211_priv; a `World` is it and the log of effects (ioctls, reports
--   to cfg80211), newest first; `M` is the monad of the layer's functions, in which `none` is BUG()
--   and an error is a status that is returned. `Platform` holds what the repository does not: the
--   firmware's replies, bcm_mkiovar, the allocator, the functions of cfg80211, and constants of
--   kernel headers and of proto/*.h. State/Keeps and State/Total are rules for what a computation
--   leaves alone, where it ends, and that it returns.
-- - Iovar: wl_dev_ioctl, wl_dev_intvar_get and _set, wl_dev_bufvar_get and _set. Iovar/Laws states
--   what is relied on of bcm_mkiovar: where the buffer has room, the length is at least 4.
-- - Ie: the element buffer, wl_rst_ie to wl_get_ielen. Scan: wl_cfg80211_scan, wl_inform_single_bss,
--   wl_inform_bss, wl_notify_scan_status. Connect: wl_cfg80211_connect and its five settings,
--   disconnect, join of an IBSS. Chanspec: wl_ch_to_chanspec. Link: the handlers of the link's
--   events. Keys, Pmk, Power, Params, Wowl, Iface: the other requests. Events: the queue, the
--   thread and its producers as a step relation. Lifecycle: attaching and detaching. Bands: tables.
-- - Iw: the wireless extensions (src/wl/sys/wl_iw.c and .h), the older control interface, which is
--   compiled in place of the layer. `WlIw` is wl_iw_t, `Driver` what its handlers take from
--   elsewhere, and Iw/Monad has their monad and dev_wlc_ioctl to dev_wlc_intvar_get; a status is a
--   signed int. Iw/Radio: channel, mode, name. Iw/Spy: signal quality, spy list, access points,
--   statistics. Iw/Station: network, SSID, nickname. Iw/Limits: rates, thresholds, powers, retries.
--   Iw/Encode: keys. Iw/Pmksa: PMKSA table. Iw/Auth: authentication. Iw/Scan and Iw/Range: scan
--   results and abilities. Iw/Report: events to user space. Iw/Call: the tables of handlers and
--   wl_iw_ioctl.
-- - Linux: the glue between the kernel and the binary part (src/wl/sys/wl_linux.c and .h). Linux/Txq:
--   wl_start and its work function as steps. Linux/Timer: the timers' functions as steps, with
--   wl_schedule_task. Linux/Interfaces: the list of interfaces and wl_set_monitor. Linux/Requests:
--   wl_ioctl, wl_ethtool, addresses, multicast, rfkill. Linux/Stats: wl_linux_watchdog and
--   wl_get_stats. Linux/Radiotap and Linux/Monitor: the headers and frames of wl_monitor.
--   Linux/Interrupts: wl_isr and wl_dpc as steps, with what is relied on of the binary part: wlc_isr
--   turns the interrupts off where it wants the deferred call, and the device comes up behind
--   wl_reset, whether or not that call has run. Linux/Attach: wl_pci_probe, wl_attach and wl_free.
--   Linux/Power: wl_up, wl_down, wl_open, wl_close, wl_suspend, wl_resume and wl_remove with the lock
--   and the waits as events. Linux/Rfkill: the kernel's switch for the radio.
--   Linux/Proc: the file under /proc. Linux/Signal: wl_get_wireless_stats. Linux/Multicast: the task
--   for the multicast list as steps. Linux/Received: wl_sendup. `Glue` and `PowerGlue` hold what the
--   binary part and the allocator answer, `Radiotap` the constants of the kernel.
-- - Shared: macros and inline functions of the vendor's headers (src/include/bcmendian.h and
--   bcmutils.h): byte orders, rounding and moduli of unsigned words, arrays of bits,
--   xor_128bit_block, error codes.
-- - Tests: a concrete platform and driver, and examples of the theorems.
--
-- Numbers are natural numbers; fields of w bits are cut with `% 2 ^ w` where the code stores or
-- computes past them, and a signed power is an integer. The code is read for a current kernel where
-- it depends on the kernel's version. All conversions of byte order (htod32 and the like) are
-- identities in the source, and left out, as are debug messages and locks that are held around a
-- whole handler (Linux/Power has them).
--
-- The one loop without a bound, the search for a scan buffer that is large enough, runs on fuel of
-- nineteen rounds: the length doubles from 16 KiB and would be 0 after eighteen. The search for a
-- vendor element in Iw/Scan has one round more than there are bytes, and each round that goes on
-- skips at least two of what the parser found. SPINWAIT has ten rounds of fuel more than
-- microseconds, and takes one for ten of them.
--
-- Not modelled: of wl_linux.c the module's parameters and registration; the vendor's headers other
-- than what is named above, the constant fields that wl_alloc_wdev writes, the freeing of single
-- buffers on the way (a buffer that is leaked shows only in Lifecycle and Linux/Attach), and scripts,
-- patches and documents.
pub mod Prelude
pub mod Headers
pub mod State
pub mod Iovar
pub mod Ie
pub mod Params
pub mod Chanspec
pub mod Connect
pub mod Keys
pub mod Power
pub mod Pmk
pub mod Wowl
pub mod Scan
pub mod Iw
pub mod Link
pub mod Iface
pub mod Events
pub mod Lifecycle
pub mod Bands
pub mod Linux
pub mod Shared
pub mod Tests
