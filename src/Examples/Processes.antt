-- ===== src/Examples/Processes.antt =====
-- Witnesses about the two programs of examples/multiprocess.rs.
use unix_ancillary.Base.{
  ℕ, ◌+◌, ◌≤◌, ◌<◌, ◌≡◌, subst, true, [], ◌∷◌, none, ltb, ◌==◌, ◌^◌, length, arith, if◌then◌else◌,
  List,
}
use unix_ancillary.Base.Results.{Result}
use unix_ancillary.Bytes.{Bytes}
use unix_ancillary.Target.Linux.{x86_64_linux-IsTarget}
use unix_ancillary.System.{Host, World, MsgHdr, RecvRet, received, os_error}
use unix_ancillary.Cmsg.Fits.{ControlFits}
use unix_ancillary.Cmsg.Returns.{Returns}
use unix_ancillary.Std.{Std, call}
use unix_ancillary.Multiprocess.{contents, child}
use unix_ancillary.Multiprocess.Child.{child_attempt, ChildEnds, child-ChildEnds}
use unix_ancillary.Multiprocess.Parent.{parent, main}
use unix_ancillary.Multiprocess.Parent.Returns.{Clock, main-Returns}
use unix_ancillary.Multiprocess.Parent.Ledger.{Ends, Bound}
use unix_ancillary.Multiprocess.Parent.Closes.{OpensFds, parent-Ends}
use unix_ancillary.Examples.Machine.{machine, host, host-ControlFits, host-Settles, start}

abbrev RecvMsg : Type 0
RecvMsg = ℕ → List Bytes → Bytes → ℕ → ℕ → RecvRet × ℕ

abbrev served_by : RecvMsg → Host
served_by r = record host { os = record machine { recvmsg = r } }

-- The kernel's state is the time. A connection arrives from the third millisecond on; the peers
-- acknowledge, and the file cannot be written to.
abbrev files : (r : RecvMsg) → Std (served_by r)
files r = record {
  connect = λ path k. (Result.ok 3, k);
  bind = λ path k. (Result.ok 3, k);
  accept = λ listener k. (if ltb k 3 then Result.err (os_error 11) else Result.ok 12, k);
  set_nonblocking = λ fd on k. (Result.ok tt, k);
  set_read_timeout = λ fd millis k. (Result.ok tt, k);
  set_write_timeout = λ fd millis k. (Result.ok tt, k);
  read_exact = λ fd len k. (Result.ok (89 ∷ []), k);
  read_to_string = λ fd k. (Result.ok contents, k);
  write_all = λ fd bytes k. (if fd == 5 then Result.err (os_error 9) else Result.ok tt, k);
  open_file = λ path k. (Result.ok 7, k);
  tempdir = λ k. (Result.ok (47 ∷ []), k);
  new_in = λ directory k. (Result.ok (6, 47 ∷ 49 ∷ []), k);
  join = λ directory name. name;
  remove_file = λ path k. k;
  remove_dir = λ path k. k;
  current_exe = λ k. (Result.ok (47 ∷ []), k);
  spawn = λ program args k. (Result.ok 400, k);
  try_wait = λ worker k. (Result.ok none, k);
  kill = λ worker k. (Result.ok tt, k);
  wait = λ worker k. (Result.ok true, k);
  now = λ k. (k, k);
  sleep = λ millis k. k + millis;
}

abbrev parent_files : Std host
parent_files = files machine.recvmsg

files-Clock : Clock host parent_files
files-Clock = record {
  ticks = λ k. k;
  now_reads = λ k. omega arith;
  now_read = λ k. omega arith;
  sleep_lasts = λ millis k. omega arith;
  accept_keeps = λ fd k. omega arith;
  try_wait_keeps = λ worker k. omega arith;
}

files-OpensFds : OpensFds host parent_files
files-OpensFds path fd (k, k', e) =
    let same : 7 ≡ fd = cc e in subst (λ n. n < 2 ^ 31) same (omega arith)

-- The marker with one descriptor.
abbrev handed : MsgHdr
handed = record {
  iov = (70 ∷ []) ∷ [];
  control =
      20 ∷ 0 ∷ 0 ∷ 0 ∷ 0 ∷ 0 ∷ 0 ∷ 0 ∷ 1 ∷ 0 ∷ 0 ∷ 0 ∷ 1 ∷ 0 ∷ 0 ∷ 0 ∷ 5 ∷ 0 ∷ 0 ∷ 0 ∷ 0 ∷ 0 ∷ 0 ∷ 0
      ∷ [];
  controllen = 24;
  flags = 0;
}

abbrev child_host : Host
child_host = served_by (λ fd iov buf flags k. (received 1 handed, k))

abbrev child_files : Std child_host
child_files = files (λ fd iov buf flags k. (received 1 handed, k))

child_host-ControlFits : ControlFits child_host
child_host-ControlFits fd iov buf flags n hdr k k' e =
    let same : handed ≡ hdr = cc e in
    subst (λ x. x.controllen ≤ length x.control) same (omega arith)

abbrev child_start : World child_host
child_start = record { kernel = 0; closed = []; sent = [] }

child-ChildEnds_example :
    ChildEnds child_host
      (call (child_files.connect (47 ∷ [])) child_start)
      (child_attempt child_host child_files (47 ∷ []) child_start)
      []
      []
      (child child_host child_files (47 ∷ []) child_start)
child-ChildEnds_example =
    child-ChildEnds child_host child_files (47 ∷ []) child_start x86_64_linux-IsTarget
      child_host-ControlFits

parent-Ends_example :
    Ends host parent_files (Bound host parent_files) [] [] (parent host parent_files start)
parent-Ends_example = parent-Ends host parent_files start x86_64_linux-IsTarget files-OpensFds

main-Returns_example : Returns (main host parent_files [] start)
main-Returns_example =
    main-Returns host parent_files [] start x86_64_linux-IsTarget host-ControlFits host-Settles
      files-Clock
