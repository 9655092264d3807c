-- ===== src/Sock/Laws.antt =====
-- What jni/sock.c does with its socket, and which pages it sends.
use memdump.Base.{
  ℕ, zero, suc, ◌+◌, ◌%◌, ◌^◌, ◌<◌, ◌≡◌, ◌⊎◌, ltb, refl, Bool, true, false, not, ◌||◌, ◌&&◌, ◌==◌,
  List, [], ◌∷◌, ◌++◌, fault, arith, Bool-cases, inl, inr,
}
use memdump.Base.Int.{ℤ, pos, negsuc, lt_int, eq_int}
use memdump.Mem.Read.{Stream, u64}
use memdump.Sock.{
  Options, Sock, SockaddrIn, NetEvent, created, answered, wrote, is_open_socket, Network, server_of,
  open_socket, Chunk, chunk_for, overwrite, page_length, end_address, send_pages,
}

-- Has a socket been connected to a server: was there a call of `connect` that did not fail?
abbrev pub is_connected : ℤ → SockaddrIn → List NetEvent → Bool
is_connected fd to [] = false
is_connected fd to (answered fd' to' answer ∷ h) =
    not (lt_int answer (pos 0))
      && (eq_int fd' fd && (to'.sin_addr == to.sin_addr) && (to'.sin_port == to.sin_port))
    || is_connected fd to h
is_connected fd to (created fd' ∷ h) = is_connected fd to h
is_connected fd to (wrote text ∷ h) = is_connected fd to h

-- A socket that is open afterwards and was not before.
abbrev pub Opens : ℤ → List NetEvent → List NetEvent → Type 0
Opens fd h h' = (is_open_socket fd h ≡ false) × (is_open_socket fd h' ≡ true)

-- Does `socket` fail, and does `connect` fail on what it gave?
abbrev pub no_socket : Network → List NetEvent → Bool
no_socket net h = eq_int (net.socket h) (negsuc 0)

abbrev pub is_refused : Network → Options → List NetEvent → Bool
is_refused net opt h =
    lt_int (net.connect (created (net.socket h) ∷ h) (net.socket h) (server_of net opt)) (pos 0)

-- The result, the struct and the calls, as `open_socket` returns them.
abbrev pub Failed : Sock → ℤ × Sock × List NetEvent → Type 0
Failed sock r = (r.0 ≡ negsuc 0) × (r.1 ≡ sock)

eq_int_self : (fd : ℤ) → eq_int fd fd ≡ true
eq_int_self fd = ground arith

-- If `socket` fails, `open_socket` returns -1, leaves `*sock` as it was, and has opened no socket. If
-- `connect` fails on the new socket, it returns -1 and leaves `*sock` as it was, but the new socket
-- stays open, not connected to anything that it was not connected to before. Otherwise it returns 0
-- with the new socket in `*sock`, which is connected to the server of the options.
pub open_socket_lem :
    (net : Network) (sock : Sock) (opt : Options) (h : List NetEvent)
    → let r = open_socket net sock opt h in
      let fd = net.socket h in
      ((no_socket net h ≡ true)
        × Failed sock r
        × ((fd : ℤ) → is_open_socket fd r.2 ≡ is_open_socket fd h))
      ⊎ ((no_socket net h ≡ false)
          × (is_refused net opt h ≡ true)
          × Failed sock r
          × Opens fd h r.2
          × ((to : SockaddrIn) → is_connected fd to r.2 ≡ is_connected fd to h))
      ⊎ ((no_socket net h ≡ false)
          × (is_refused net opt h ≡ false)
          × (r.0 ≡ pos 0)
          × (r.1.fd ≡ fd)
          × Opens fd h r.2
          × (is_connected fd (server_of net opt) r.2 ≡ true))
unfolding open_socket
open_socket_lem net sock opt h =
    let fd = net.socket h in
    let same = eq_int_self fd in
    elim (Bool-cases (no_socket net h)) [
      | inl failed ↦ inl (failed, rw failed (refl, refl), rw failed (λ fd. refl))
      | inr made ↦
          let fresh = net.socket_fresh h made in
          elim (Bool-cases (is_refused net opt h)) [
            | inl refused ↦ inr (
                inl (
                  made,
                  refused,
                  rw (made, refused) (refl, refl),
                  rw (made, refused) (fresh, rw same refl),
                  rw (made, refused) (λ to. rw refused refl),
                ))
            | inr accepted ↦ inr (
                inr (
                  made,
                  accepted,
                  rw (made, accepted) refl,
                  rw (made, accepted) refl,
                  rw (made, accepted) (fresh, rw same refl),
                  rw (made, accepted) (ground (arith, same, accepted)),
                ))
          ]
    ]

-- The pages from an address on.
abbrev pub chunks_from : ℤ → (ℕ → List ℕ) → ℕ → ℕ → List Chunk
chunks_from server_socket content address zero = []
chunks_from server_socket content address (suc n) =
    chunk_for server_socket (content address) ∷ chunks_from server_socket content (address + 4096) n

module _ {ℓ} {F : Type ℓ} (io : Stream F) where
  -- What the buffer holds after each of `n` reads.
  abbrev pub buffers : List ℕ → F → ℕ → List (List ℕ)
  buffers page file zero = []
  buffers page file (suc n) =
      let read = io.fread page_length file in
      let page' = overwrite page read.1 in page' ∷ buffers page' read.0 n

module _ {ℓ} {F : Type ℓ} (io : Stream F) where
  endless :
      (fuel end address : ℕ) (server_socket : ℤ) (page : List ℕ) (file : F) (out : List Chunk)
      → address % 4096 ≡ 0
      → address < 2 ^ 64
      → 2 ^ 64 < end + 4096
      → end < 2 ^ 64
      → send_pages io fuel end address server_socket page file out ≡ fault
  unfolding send_pages
  endless zero end address server_socket page file out whole below last top =
      let go : ltb address end ≡ true = ground arith in rw go refl
  endless (suc fuel) end address server_socket page file out whole below last top =
      let go : ltb address end ≡ true = ground arith in
      let read = io.fread page_length file in
      let page' = overwrite page read.1 in
      rw go (
        endless fuel end (u64 (address + page_length)) server_socket page' read.0
          (out ++ (chunk_for server_socket page' ∷ [])) (omega arith) (omega arith) last top)

  -- Where a region begins at a page and ends within the last page of the address space, the loop
  -- never ends, whatever the reads return: the address wraps around before it reaches the end, so no
  -- number of rounds is enough.
  pub send_pages_endless :
      (fuel start_address length_ : ℕ) (server_socket : ℤ) (page : List ℕ) (file : F)
      → start_address % 4096 ≡ 0
      → start_address + length_ < 2 ^ 64
      → 2 ^ 64 < start_address + length_ + 4096
      → send_pages io fuel
          (end_address start_address (pos length_))
          start_address
          server_socket
          page
          file
          []
        ≡ fault
  unfolding end_address
  send_pages_endless fuel start_address length_ server_socket page file whole top last =
      let end : u64 (start_address + length_) ≡ start_address + length_ = omega arith in
      rw end (
        endless fuel (start_address + length_) start_address server_socket page file [] whole
          (omega arith) last top)
