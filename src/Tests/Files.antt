-- ===== src/Tests/Files.antt =====
-- adsbus/file.c at fixed inputs.
use adsb_tools.Prelude.{◌≡◌, refl, true, false, Option, none, some, [], ◌∷◌, ok, arith}
use adsb_tools.Peer.{World}
use adsb_tools.Peer.Keeps.{opened-Holds}
use adsb_tools.Flow.{flow_ref_dec, flow_send_hello, flow_get_hello}
use adsb_tools.Files.{Files, File, FileHandler, o_write, file_opened, file_handle}
use adsb_tools.Files.Life.{
  OpensNew, HoldsNothing, file_life, file_life-HoldsNothing, file_opened-gives_up,
}
use adsb_tools.Tests.Sockets.{
  fresh, fresh-gone, willing, willing-Works, quiet_flow, quiet_flow-IsFlow, start, start-HoldsNone,
  allocated, one_socket,
}

-- Regular files.
abbrev regular : Files
regular = record {
  open_path = λ t path flags. some (fresh t);
  epoll_create1 = λ t. some (fresh t);
  epoll_ctl = λ t epoll_fd fd. false;
}

regular-OpensNew : OpensNew regular
regular-OpensNew = record {
  open_new = λ t path flags x e. fresh-gone t x (grind (arith, e));
  epoll_new = λ t. (fresh t, refl, fresh-gone t (fresh t) (omega arith));
}

abbrev output : File
output = record {
  peer = allocated;
  handler = FileHandler.open_wrapper;
  path = 47 ∷ 120 ∷ [];
  flags = o_write;
  attempt = 0;
  retry = true;
}

file_life-HoldsNothing_example :
    (r : Option File × World) × (file_life willing regular quiet_flow 2
        (47 ∷ [])
        o_write
        output
        start
      ≡ ok r)
    × HoldsNothing r
file_life-HoldsNothing_example =
    file_life-HoldsNothing willing regular quiet_flow (47 ∷ []) o_write output start 2 willing-Works
      regular-OpensNew quiet_flow-IsFlow start-HoldsNone (omega arith)

quiet_flow-greets : (w : World) → (flow_send_hello willing 3 quiet_flow w).0 ≡ true
unfolding flow_send_hello flow_get_hello
quiet_flow-greets w = refl

file_opened-gives_up_example :
    (s : File × World) × (file_opened willing regular quiet_flow 3 output one_socket
      ≡ ok (some s.0, s.1))
    × (s.0.handler ≡ FileHandler.handle_close)
    × (file_handle willing regular quiet_flow s.0 start ≡ ok (none, flow_ref_dec start))
file_opened-gives_up_example =
    file_opened-gives_up willing regular quiet_flow 3 output one_socket start willing-Works
      regular-OpensNew quiet_flow-IsFlow (λ t epoll_fd. refl) quiet_flow-greets
      (opened-Holds [] 3 start-HoldsNone)
