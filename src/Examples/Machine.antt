-- ===== src/Examples/Machine.antt =====
-- A small machine for the examples: Linux on x86-64, whose first call is interrupted, and an Apple
-- target whose `fcntl` is recorded.
use unix_ancillary.Base.{
  ℕ, zero, suc, ◌≤◌, ◌<◌, ◌≡◌, refl, ap, subst, List, [], ◌∷◌, length, Bool, true, some,
  if◌then◌else◌, ◌==◌, arith, Bool-cases, inl, inr,
}
use unix_ancillary.Bytes.{Bytes}
use unix_ancillary.Target.{TargetOs}
use unix_ancillary.Target.Linux.{x86_64_linux}
use unix_ancillary.System.{Host, Os, World, MsgHdr, SysRet, ret, errno, RecvRet, received, failed}
use unix_ancillary.Platform.Laws.{Fcntl}
use unix_ancillary.Cmsg.Retry.{Answers, now, again, send_interrupted, recv_interrupted}
use unix_ancillary.Platform.{send_flags}
use unix_ancillary.Cmsg.Fits.{ControlFits}
use unix_ancillary.Cmsg.Returns.{Settles}

-- One `SCM_RIGHTS` message with the descriptors 5, 6 and 7, in its 32 bytes of `CMSG_SPACE`.
abbrev pub three_rights : Bytes
three_rights =
    28 ∷ 0 ∷ 0 ∷ 0 ∷ 0 ∷ 0 ∷ 0 ∷ 0 ∷ 1 ∷ 0 ∷ 0 ∷ 0 ∷ 1 ∷ 0 ∷ 0 ∷ 0 ∷ 5 ∷ 0 ∷ 0 ∷ 0 ∷ 6 ∷ 0 ∷ 0 ∷ 0
    ∷ 7 ∷ 0 ∷ 0 ∷ 0 ∷ 0 ∷ 0 ∷ 0 ∷ 0 ∷ []

abbrev pub delivery : MsgHdr
delivery = record {
  iov = (104 ∷ 105 ∷ []) ∷ [];
  control = three_rights;
  controllen = 32;
  flags = 0;
}

-- The first call is interrupted; a send accepts one byte, a receive delivers two bytes.
abbrev pub first_interrupted : ℕ → SysRet × ℕ
first_interrupted zero = (errno 4, 1)
first_interrupted (suc k) = (ret 1, suc k)

abbrev pub first_recv_interrupted : ℕ → RecvRet × ℕ
first_recv_interrupted zero = (failed 4, 1)
first_recv_interrupted (suc k) = (received 2 delivery, suc k)

abbrev pub machine : Os
machine = record {
  Kernel = ℕ;
  sendmsg = λ fd iov control flags k. first_interrupted k;
  recvmsg = λ fd iov buf flags k. first_recv_interrupted k;
  fcntl_getfd = λ fd k. (ret 0, k);
  fcntl_setfd = λ fd flags k. (ret 0, k);
  setsockopt = λ fd level option value k. (ret 0, k);
  getsockopt = λ fd level option k. (ret 0, 1, k);
  getrlimit_nofile = λ k. (some 1024, k);
  close = λ fd k. k;
  getpid = λ k. 300;
  getuid = λ k. 2;
  getgid = λ k. 3;
}

abbrev pub host : Host
host = record { target = x86_64_linux; os = machine; retries = 2; uninit = 170 ∷ 170 ∷ [] }

abbrev pub start : World host
start = record { kernel = 0; closed = []; sent = [] }

pub host-ControlFits : ControlFits host
host-ControlFits fd iov buf flags n hdr zero k' e = cc
host-ControlFits fd iov buf flags n hdr (suc k) k' e =
    let same : delivery ≡ hdr = cc in
    subst (λ x. x.controllen ≤ length x.control) same (omega arith)

pub host-Settles : Settles host
host-Settles = record { sends = sends; receives = receives }
  where
    sends :
        (fd : ℕ) (iov : List Bytes) (control : Bytes) (k : ℕ)
        → (n : ℕ) × (r : SysRet) × (k' : ℕ) × (n < 2)
          × Answers host
              (host.sendmsg fd iov control (send_flags host.target))
              (send_interrupted host)
              n
              k
              r
              k'
    sends fd iov control zero = (1, ret 1, 1, omega arith, again refl refl (now refl refl))
    sends fd iov control (suc k) = (0, ret 1, suc k, omega arith, now refl refl)

    receives :
        (fd : ℕ) (iov : List Bytes) (buf : Bytes) (flags k : ℕ)
        → (n : ℕ) × (r : RecvRet) × (k' : ℕ) × (n < 2)
          × Answers host (host.recvmsg fd iov buf flags) (recv_interrupted host) n k r k'
    receives fd iov buf flags zero =
        (1, received 2 delivery, 1, omega arith, again refl refl (now refl refl))
    receives fd iov buf flags (suc k) = (0, received 2 delivery, suc k, omega arith, now refl refl)

-- A kernel that is the set of descriptors with close-on-exec on, as a function.
abbrev pub switched : (ℕ → Bool) → ℕ → ℕ → Bool
switched on fd other = if other == fd then true else on other

abbrev pub fcntl_machine : Os
fcntl_machine = record {
  Kernel = ℕ → Bool;
  sendmsg = λ fd iov control flags k. (ret 1, k);
  recvmsg = λ fd iov buf flags k. (received 2 delivery, k);
  fcntl_getfd = λ fd k. (ret 0, k);
  fcntl_setfd = λ fd flags k. (ret 0, switched k fd);
  setsockopt = λ fd level option value k. (ret 0, k);
  getsockopt = λ fd level option k. (ret 0, 1, k);
  getrlimit_nofile = λ k. (some 1024, k);
  close = λ fd k. k;
  getpid = λ k. 300;
  getuid = λ k. 2;
  getgid = λ k. 3;
}

abbrev pub apple_host : Host
apple_host = record {
  target = record x86_64_linux { target_os = TargetOs.apple };
  os = fcntl_machine;
  retries = 1;
  uninit = [];
}

abbrev pub IsCloexec : (ℕ → Bool) → ℕ → Type 0
IsCloexec k fd = k fd ≡ true

pub apple_host-Fcntl : Fcntl apple_host IsCloexec
apple_host-Fcntl = record {
  getfd_keeps = λ fd other k on. on;
  setfd_keeps = λ fd other flags k on. kept fd other k on;
  setfd_sets = λ fd flags n k k' e. set fd k k' (ap (λ r. r.1) e);
}
  where
    kept : (fd other : ℕ) (k : ℕ → Bool) → k other ≡ true → switched k fd other ≡ true
    kept fd other k on = elim (Bool-cases (other == fd)) [ inl e ↦ rw e refl | inr e ↦ rw e on ]

    set : (fd : ℕ) (k k' : ℕ → Bool) → switched k fd ≡ k' → k' fd ≡ true
    set fd k k' same =
        let self : (fd == fd) ≡ true = ground arith in subst (λ f. f fd ≡ true) same (rw self refl)
