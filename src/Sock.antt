-- ===== src/Sock.antt =====
-- jni/sock.c: a connection to a server, and the pages of a region sent over it. No program of the
-- repository calls it. What the sockets answer is a parameter, as is the stream on the memory.
pub mod Laws
use memdump.Base.{
  ℕ, zero, suc, ◌+◌, ◌-◌, ◌/◌, ◌%◌, ◌^◌, ltb, if◌then◌else◌, Bool, false, not, ◌&&◌, ◌||◌, List, [],
  ◌∷◌, ◌++◌, length, drop, Run, ok, fault, ◌>>=◌, arith, ◌≡◌,
}
use memdump.Base.Int.{ℤ, pos, negsuc, lt_int, eq_int}
use memdump.Mem.Read.{Stream, u64}

-- `struct Option` of jni/opt.h, and `struct Sock`.
pub record Options : Type 0 where
  pub pid : ℤ
  pub net : Bool
  pub ip_addr : List ℕ
  pub port : ℤ

pub record Sock : Type 0 where
  pub fd : ℤ

-- The address and the port, in network order, of the family `AF_INET`.
pub record SockaddrIn : Type 0 where
  pub sin_addr : ℕ
  pub sin_port : ℕ

pub data Message : Type 0 where
  could_not_create could_not_connect : Message

-- What `open_socket` does, newest first: `socket` gave a descriptor, `connect` was called and gave an
-- answer, and a line was written on stderr.
pub data NetEvent : Type 0 where
  created : ℤ → NetEvent
  answered : ℤ → SockaddrIn → ℤ → NetEvent
  wrote : Message → NetEvent

-- Is a socket open after the calls? Nothing closes one.
abbrev pub is_open_socket : ℤ → List NetEvent → Bool
is_open_socket fd [] = false
is_open_socket fd (created fd' ∷ h) = eq_int fd' fd || is_open_socket fd h
is_open_socket fd (answered fd' to answer ∷ h) = is_open_socket fd h
is_open_socket fd (wrote text ∷ h) = is_open_socket fd h

-- The calls, whose results may depend on all that was done before. `socket` returns -1, or
-- a descriptor that was not open.
pub record Network : Type 0 where
  pub socket : List NetEvent → ℤ
  pub connect : List NetEvent → ℤ → SockaddrIn → ℤ
  pub inet_addr : List ℕ → ℕ
  pub htons : ℕ → ℕ
  pub socket_fresh :
      (h : List NetEvent)
      → eq_int (socket h) (negsuc 0) ≡ false
      → is_open_socket (socket h) h ≡ false

-- `(uint16_t)n`, for the argument of `htons`.
abbrev pub u16_of_int : ℤ → ℕ
u16_of_int (pos n) = n % 2 ^ 16
u16_of_int (negsuc n) = 2 ^ 16 - 1 - n % 2 ^ 16

unfoldable pub server_of : Network → Options → SockaddrIn
server_of net opt = record {
  sin_addr = net.inet_addr opt.ip_addr;
  sin_port = net.htons (u16_of_int opt.port);
}

-- The result, and `*sock` and the history afterwards.
unfoldable pub open_socket : Network → Sock → Options → List NetEvent → ℤ × Sock × List NetEvent
unfolding server_of
open_socket net sock opt h =
    let server_socket = net.socket h in
    let h1 = created server_socket ∷ h in
    let server_socket_address = server_of net opt in
    let answer = net.connect h1 server_socket server_socket_address in
    let h2 = answered server_socket server_socket_address answer ∷ h1 in
    if eq_int server_socket (negsuc 0)
    then (negsuc 0, sock, wrote could_not_create ∷ h)
    else if lt_int answer (pos 0)
    then (negsuc 0, sock, wrote could_not_connect ∷ h2)
    else (pos 0, record sock { fd = server_socket }, h2)

-- A page that is handed to `fwrite` on stdout, or to `send`.
pub data Chunk : Type 0 where
  to_stdout : List ℕ → Chunk
  to_socket : ℤ → List ℕ → Chunk

unfoldable pub chunk_for : ℤ → List ℕ → Chunk
chunk_for server_socket page =
    if eq_int server_socket (negsuc 0) then to_stdout page else to_socket server_socket page

-- The buffer after `fread` put bytes at its front.
abbrev pub overwrite : List ℕ → List ℕ → List ℕ
overwrite page bytes = bytes ++ drop (length bytes) page

abbrev pub page_length : ℕ
page_length = 4096

-- `start_address + length`: the `long` is converted to `unsigned long`.
unfoldable pub end_address : ℕ → ℤ → ℕ
end_address start_address (pos n) = u64 (start_address + n)
end_address start_address (negsuc n) = u64 (start_address + (2 ^ 64 - 1 - n % 2 ^ 64))

module _ {ℓ} {F : Type ℓ} (io : Stream F) where
  -- The loop over the addresses, with fuel.
  unfoldable pub send_pages : ℕ → ℕ → ℕ → ℤ → List ℕ → F → List Chunk → Run (List Chunk)
  unfolding chunk_for
  send_pages zero end address server_socket page file out =
      if ltb address end then fault else ok out
  send_pages (suc fuel) end address server_socket page file out =
      let (file', bytes) = io.fread page_length file in
      let page' = overwrite page bytes in
      let rest =
        send_pages fuel end (u64 (address + page_length)) server_socket page' file'
          (out ++ (chunk_for server_socket page' ∷ [])) in
      if ltb address end then rest else ok out

  -- `page` is what the array holds before the first read.
  unfoldable pub dump_memory_region_send : F → ℕ → ℤ → ℤ → List ℕ → Run (List Chunk)
  unfolding send_pages end_address
  dump_memory_region_send file start_address length_ server_socket page =
      let end = end_address start_address length_ in
      let fuel = (end - start_address) / page_length + 1 in
      send_pages fuel end start_address server_socket page (io.fseeko start_address file) []
