-- ===== src/Examples/Options.antt =====
-- Witness about the socket option, on a kernel whose state is the flag.
use unix_ancillary.Base.{◌≡◌, refl, ap, true, []}
use unix_ancillary.Target.Linux.{x86_64_linux}
use unix_ancillary.System.{Host, World, ok, ret}
use unix_ancillary.Credentials.{passcred, set_passcred}
use unix_ancillary.Credentials.Laws.{PasscredFlag, passcred-set_passcred}
use unix_ancillary.Examples.Machine.{machine}

abbrev flag_host : Host
flag_host = record {
  target = x86_64_linux;
  os = record machine {
    setsockopt = λ fd level option value k. (ret 0, value);
    getsockopt = λ fd level option k. (ret 0, k, k);
  };
  retries = 1;
  uninit = [];
}

flag_host-PasscredFlag : PasscredFlag flag_host
flag_host-PasscredFlag = record {
  reads_back =
      λ fd value n k k' small e. let same : value ≡ k' = ap (λ a. a.1) e in (0, k', rw same refl);
}

abbrev flag_off : World flag_host
flag_off = record { kernel = 0; closed = []; sent = [] }

abbrev flag_on : World flag_host
flag_on = record { kernel = 1; closed = []; sent = [] }

passcred-set_passcred_example :
    (u : World flag_host) × (passcred flag_host 3 flag_on ≡ ok true u)
    × (u.closed ≡ [])
    × (u.sent ≡ [])
unfolding set_passcred
passcred-set_passcred_example =
    passcred-set_passcred flag_host flag_host-PasscredFlag 3 true flag_off flag_on refl
