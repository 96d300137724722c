-- ===== src/Files.antt =====
-- adsbus/file.c: a file that is opened for a flow, and opened again when the flow has closed it.
pub mod Life
use adsb_tools.Prelude.{
  ℕ, ◌+◌, Bool, true, false, Option, none, some, List, [], ◌∷◌, ◌==◌, not, bit_and, if◌then◌else◌,
  Run, ok, abort, ◌>>=◌,
}
use adsb_tools.Packet.{u32}
use adsb_tools.Os.{Event, opened, Os}
use adsb_tools.Peer.{Peer, World, called, close_checked}
use adsb_tools.Flow.{Flow, flow_ref_inc, flow_ref_dec, flow_new_send_hello}
use adsb_tools.Wakeup.{wakeup_get_retry_delay_ms}
use adsb_tools.Wakeup.Timer.{wakeup_add}

-- The calls that only this code makes: `open` on a path with flags, `epoll_create1`, and whether
-- `epoll_ctl` adds a descriptor to another epoll instance than that of the event loop.
pub record Files : Type 0 where
  pub open_path : List Event → List ℕ → ℕ → Option ℕ
  pub epoll_create1 : List Event → Option ℕ
  pub epoll_ctl : List Event → ℕ → ℕ → Bool

-- The functions that `peer.event_handler` points to.
pub data FileHandler : Type 0 where
  open_wrapper handle_close : FileHandler

-- `struct file`, less its identifier, its flow and its place in the list.
pub record File : Type 0 where
  pub peer : Peer
  pub handler : FileHandler
  pub path : List ℕ
  pub flags : ℕ
  pub attempt : ℕ
  pub retry : Bool

-- O_RDONLY, and the sums of the flags for writing and for appending; and O_CLOEXEC with O_NOCTTY.
abbrev pub o_rdonly : ℕ
o_rdonly = 0

abbrev pub o_write : ℕ
o_write = 1 + 0x40 + 0x2_0000 + 0x200

abbrev pub o_append : ℕ
o_append = 1 + 0x40 + 0x2_0000

abbrev o_always : ℕ
o_always = 0x8_0000 + 0x100

module _ (os : Os) (files : Files) (flow : Flow) where
  -- `!file->flags & O_RDONLY`, as the compiler reads it.
  unfoldable pub file_should_retry : ℕ → File → World → Run (Bool × World)
  file_should_retry fd file w =
      let negated = (if file.flags == 0 then 1 else 0) in
      let asked : Run (Bool × World) = (elim (files.epoll_create1 w.trace) [
        | none ↦ abort
        | some epoll_fd ↦
            let w1 = called (opened epoll_fd) w in
            close_checked os epoll_fd w1 >>= λ w2. ok (files.epoll_ctl w1.trace epoll_fd fd, w2)
      ]) in
      if not (bit_and negated o_rdonly == 0) then ok (true, w) else asked

  unfoldable pub file_del : File → World → Run (Option File × World)
  file_del file w = ok (none, flow_ref_dec w)

  unfoldable pub file_retry : File → World → Run (Option File × World)
  file_retry file w = do
    delay ← wakeup_get_retry_delay_ms file.attempt (os.jitter w.trace)
    w1 ← wakeup_add os delay w
    ok (some (record file { attempt = u32 (file.attempt + 1); handler = open_wrapper }), w1)

  unfoldable pub file_handle_close : File → World → Run (Option File × World)
  file_handle_close file w = if file.retry then file_retry file w else file_del file w

  -- What follows a successful `open`.
  unfoldable pub file_opened : ℕ → File → World → Run (Option File × World)
  file_opened fd file w = do
    asked ← file_should_retry fd file w
    let file1 = record file { retry = asked.0; handler = handle_close; attempt = 0 }
    greeted ← flow_new_send_hello os fd flow asked.1
    let again = file_retry file1 greeted.1
    if greeted.0 then ok (some file1, greeted.1) else again

  unfoldable pub file_open : File → World → Run (Option File × World)
  file_open file w = elim (files.open_path w.trace file.path (file.flags + o_always)) [
    | none ↦ file_retry file w
    | some fd ↦ file_opened fd file (called (opened fd) w)
  ]

  -- The call of `peer.event_handler`.
  unfoldable pub file_handle : File → World → Run (Option File × World)
  file_handle file w = elim file.handler [
    | open_wrapper ↦ file_open file w
    | handle_close ↦ file_handle_close file w
  ]

  -- The structure at an address, with what `malloc` leaves in it.
  unfoldable pub file_new : List ℕ → ℕ → File → World → Run (Option File × World)
  file_new path flags allocated w =
      file_open
        (record allocated {
          peer = record allocated.peer { fd = none };
          path = path;
          flags = flags;
          attempt = 0;
        })
        (flow_ref_inc w)

  unfoldable pub file_read_new : List ℕ → File → World → Run (Option File × World)
  file_read_new path allocated w = file_new path o_rdonly allocated w

  unfoldable pub file_write_new : List ℕ → File → World → Run (Option File × World)
  file_write_new path allocated w = file_new path o_write allocated w

  unfoldable pub file_append_new : List ℕ → File → World → Run (Option File × World)
  file_append_new path allocated w = file_new path o_append allocated w
