-- ===== src/Server/Listen.antt =====
-- `smf_server_listen` of src/smf_server.c, for what the calls of the system return.
use spmfilter.Base.{
  ℕ, ◌≡◌, refl, sym, ap, Option, none, some, List, [], ◌∷◌, ◌==◌, if◌then◌else◌, arith, ℤ, pos,
  minus_one,
}
use mathlib.Core.Path.{subst}

-- How far socket, bind and listen come for an address, with the descriptor.
pub data Attempt : Type 0 where
  no_socket : Attempt
  no_bind : ℕ → Attempt
  no_listen : ℕ → Attempt
  listening : ℕ → Attempt

-- What getaddrinfo returns: 0 with addresses, -1 or another code.
pub data Resolved : Type 0 where
  addresses : List Attempt → Resolved
  bad_flags : Resolved
  unresolved : Resolved

-- `close`, in the list of the descriptors that are open.
unfoldable pub close : ℕ → List ℕ → List ℕ
close fd [] = []
close fd (x ∷ xs) = let later = x ∷ close fd xs in if x == fd then xs else later

-- The loop over the addresses: the descriptor that it stops with, and those that are open.
unfoldable pub listen_loop : List Attempt → List ℕ → Option ℕ × List ℕ
listen_loop [] fds = (none, fds)
listen_loop (no_socket ∷ rest) fds = listen_loop rest fds
listen_loop (no_bind fd ∷ rest) fds = listen_loop rest (close fd (fd ∷ fds))
listen_loop (no_listen fd ∷ rest) fds = listen_loop rest (close fd (fd ∷ fds))
listen_loop (listening fd ∷ rest) fds = (some fd, fd ∷ fds)

abbrev pub descriptor : Option ℕ → ℤ
descriptor none = minus_one
descriptor (some fd) = pos fd

-- The test is `status == getaddrinfo(...)` where an assignment is meant, and `status` is -1: for any
-- code but -1 the loop runs on a list that was not set. None stands for that.
unfoldable pub server_listen : Resolved → List ℕ → Option (ℤ × List ℕ)
server_listen (addresses found) fds = let r = listen_loop found fds in some (descriptor r.0, r.1)
server_listen bad_flags fds = some (minus_one, fds)
server_listen unresolved fds = none

-- The first address that can be listened on has the descriptor; none can.
abbrev pub Listens : List Attempt → ℤ → Type 0
Listens [] r = r ≡ minus_one
Listens (no_socket ∷ rest) r = Listens rest r
Listens (no_bind fd ∷ rest) r = Listens rest r
Listens (no_listen fd ∷ rest) r = Listens rest r
Listens (listening fd ∷ rest) r = r ≡ pos fd

-- The descriptors that are open behind the call.
abbrev pub opened : ℤ → List ℕ → List ℕ
opened (pos fd) fds = fd ∷ fds
opened _ fds = fds

close_first : (fd : ℕ) (fds : List ℕ) → close fd (fd ∷ fds) ≡ fds
unfolding close
close_first fd fds = ground arith

-- What the loop promises, where it runs with the descriptors `now` and began with `fds`.
Keeps : List Attempt → List ℕ → List ℕ → Type 0
Keeps found now fds =
    let r = descriptor (listen_loop found now).0 in
    Listens found r × ((listen_loop found now).1 ≡ opened r fds)

listen_loop-Keeps : (found : List Attempt) (fds : List ℕ) → Keeps found fds fds
unfolding listen_loop Keeps
listen_loop-Keeps [] fds = (refl, refl)
listen_loop-Keeps (no_socket ∷ rest) fds = listen_loop-Keeps rest fds
listen_loop-Keeps (no_bind fd ∷ rest) fds =
    subst (λ now. Keeps rest now fds) (sym (close_first fd fds)) (listen_loop-Keeps rest fds)
listen_loop-Keeps (no_listen fd ∷ rest) fds =
    subst (λ now. Keeps rest now fds) (sym (close_first fd fds)) (listen_loop-Keeps rest fds)
listen_loop-Keeps (listening fd ∷ rest) fds = (refl, refl)

-- Where the name is resolved, `smf_server_listen` returns the descriptor of the first address on which
-- socket, bind and listen succeed, and -1 exactly if there is none. Every other socket that it has made
-- is closed again, so that no descriptor but the one returned is open that was not open before.
pub server_listen-Listens :
    (found : List Attempt) (fds : List ℕ)
    → (r : ℤ) × ((server_listen (addresses found) fds ≡ some (r, opened r fds)) × Listens found r)
unfolding server_listen Keeps
server_listen-Listens found fds =
    let (h, e) = listen_loop-Keeps found fds in
    (
      descriptor (listen_loop found fds).0,
      (ap (λ x. some (descriptor (listen_loop found fds).0, x)) e, h),
    )
