-- ===== src/Resources.antt =====
-- What the library asks the system for and has to give back.
use ezwebsocket.Prelude.{ℕ, ◌+◌, ◌-◌, Bool, Option, none, some}
use ezwebsocket.Prelude.{if◌then◌else◌, ◌==◌, ◌>>=◌}

-- How many there are: blocks of memory, descriptors, joinable threads, OpenSSL objects and lists of
-- `getaddrinfo`.
pub record Live : Type 0 where
  pub blocks : ℕ
  pub fds : ℕ
  pub threads : ℕ
  pub tls : ℕ
  pub infos : ℕ

abbrev pub take_block : Live → Live
take_block r = record r { blocks = r.blocks + 1 }

-- `strdup` or `malloc` into a pointer: whether it is set, and what is there then.
abbrev pub take_block_if : Bool → Live → Live
take_block_if got r = if got then take_block r else r

abbrev pub take_fd : Live → Live
take_fd r = record r { fds = r.fds + 1 }

-- One less of what there is; `none` where there is none, which is what a second `free` comes to.
abbrev pub less : ℕ → Option ℕ
less n = if n == 0 then none else some (n - 1)

-- `free` of a pointer, which may be NULL.
abbrev pub free_block : Bool → Live → Option Live
free_block set r = if set then (do n ← less r.blocks; some (record r { blocks = n })) else some r

-- `close` of a descriptor.
abbrev pub close_fd : Live → Option Live
close_fd r = do n ← less r.fds; some (record r { fds = n })

-- `pthread_join`.
abbrev pub join : Live → Option Live
join r = do n ← less r.threads; some (record r { threads = n })

-- `freeaddrinfo`.
abbrev pub free_infos : Live → Option Live
free_infos r = do n ← less r.infos; some (record r { infos = n })
