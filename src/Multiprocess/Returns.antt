-- ===== src/Multiprocess/Returns.antt =====
-- The child of examples/multiprocess.rs comes to an end.
use unix_ancillary.Base.{
  ℕ, List, [], ◌∷◌, not, ◌||◌, Option, none, some, Bool-cases, inl, inr, if◌then◌else◌, flatten,
  ◌==◌,
}
use unix_ancillary.Base.Results.{Result}
use unix_ancillary.Bytes.{Bytes}
use unix_ancillary.Target.{IsTarget, ErrorKind}
use unix_ancillary.System.{Host, World, IoError, custom, fail, ◌>>=◌}
use unix_ancillary.Cmsg.Fits.{ControlFits}
use unix_ancillary.Cmsg.Returns.{Settles, Returns, and_then-Returns}
use unix_ancillary.Ext.{SocketKind, CountMode, recv_fds_into_impl, recv_fds_into_vectored_impl}
use unix_ancillary.Ext.Returns.{recv_core-Returns}
use unix_ancillary.Ext.Stream.{recv_fds_exact_into}
use unix_ancillary.Std.{Std, attempt}
use unix_ancillary.Std.Laws.{call-Returns, scoped-Returns}
use unix_ancillary.Multiprocess.{
  same_bytes, timeout, inspect, check_marker, child_session, child, contents, denied, acknowledge,
  with_file, pop,
}

module _ (h : Host) (std : Std h) where
  inspect-Returns : (socket file : ℕ) (w : World h) → Returns (inspect h std socket file w)
  unfolding inspect
  inspect-Returns socket file w =
      and_then-Returns _ _ (call-Returns (std.read_to_string file) w) λ read u _. checked read u
    where
      checked :
          (read : Bytes) (u : World h)
          → Returns (
              (if same_bytes read contents
                  then (attempt (std.write_all file denied) >>= acknowledge h std socket)
                  else fail (custom ErrorKind.invalid_data))
                u)
      checked read u = elim (Bool-cases (same_bytes read contents)) [
        | inr differs ↦ rw differs tt
        | inl same ↦ rw same (written (std.write_all file denied u.kernel).0 _)
      ]
        where
          written :
              (r : Result (Unit {0}) IoError) (v : World h) → Returns (acknowledge h std socket r v)
          written (Result.ok x) v = tt
          written (Result.err e) v = call-Returns (std.write_all socket (89 ∷ [])) v

  check_marker-Returns :
      (socket n : ℕ) (fds : List ℕ) (marker : List Bytes) (w : World h)
      → Returns (check_marker h std socket (n, fds, marker) w)
  unfolding check_marker
  check_marker-Returns socket n fds marker w =
      elim (Bool-cases (not (n == 1) || not (same_bytes (flatten marker) (70 ∷ [])))) [
        | inl bad ↦ rw bad tt
        | inr good ↦ rw good (opened (pop fds))
      ]
    where
      opened : (o : Option (ℕ × List ℕ)) → Returns (with_file h std socket o w)
      opened none = tt
      opened (some (file, rest)) = scoped-Returns (file ∷ rest) _ (inspect-Returns socket file w)

  pub child-Returns :
      (path : Bytes) (w : World h)
      → IsTarget h.target
      → ControlFits h
      → Settles h
      → Returns (child h std path w)
  unfolding child child_session recv_fds_exact_into recv_fds_into_impl recv_fds_into_vectored_impl
  child-Returns path w v law s =
      and_then-Returns _ _ (call-Returns (std.connect path) w) λ socket w₁ _.
        scoped-Returns (socket ∷ []) _ (
          and_then-Returns _ _ (call-Returns (std.set_read_timeout socket timeout) w₁) λ _ w₂ _.
            and_then-Returns _ _ (call-Returns (std.set_write_timeout socket timeout) w₂) λ _ w₃ _.
              and_then-Returns _ _
                (and_then-Returns _ _
                  (recv_core-Returns h socket ((0 ∷ []) ∷ []) SocketKind.stream (CountMode.exact 1)
                    w₃ v law s)
                  λ r w₄ _. tt)
                λ r w₅ _. check_marker-Returns socket r.0 r.1 r.2 w₅)
