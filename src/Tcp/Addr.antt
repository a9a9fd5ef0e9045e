-- ===== src/Tcp/Addr.antt =====
-- transport/tcp/src/net.rs: `UnifyAddr`, and the files that the binding of a Unix socket makes and
-- removes. The socket addresses of the standard library, with their parser and resolver, and what the
-- file system permits are parameters. A panic is none.
pub mod Bind
pub mod Text
use occams_rpc.Base.{
  ℕ, zero, suc, Bool, true, false, not, ◌&&◌, Option, none, some, List, [], ◌∷◌, ◌++◌, ◌==◌,
  if◌then◌else◌,
}
use occams_rpc.Base.Result.{Result, ok, err}
use occams_rpc.Error.Text.{bytes_eq}
use occams_rpc.Io.{IoErr, other}

-- `UnifyAddr`, over the socket addresses A.
pub data UnifyAddr (A : Type 0) : Type 0 where
  socket : A → UnifyAddr A
  path : List ℕ → UnifyAddr A

-- What the code asks of the standard library's addresses: A of sockets, I of hosts.
pub record Addrs (A I : Type 0) : Type 0 where
  pub parse_socket : List ℕ → Option A
  pub parse_ip : List ℕ → Option I
  pub to_socket_addrs : List ℕ → Option (List A)
  pub ip : A → I
  pub socket_eq : A → A → Bool
  pub ip_eq : I → I → Bool
  pub path_eq : List ℕ → List ℕ → Bool

module _ {A I : Type 0} (addrs : Addrs A I) where
  -- The first address that the name is resolved to.
  abbrev pub first_resolved : Option (List A) → Result {0, 0} (Unit {0}) (UnifyAddr A)
  first_resolved none = err tt
  first_resolved (some []) = err tt
  first_resolved (some (a ∷ as')) = ok (socket a)

  abbrev pub parsed_or_resolved : List ℕ → Option A → Result {0, 0} (Unit {0}) (UnifyAddr A)
  parsed_or_resolved s (some a) = ok (socket a)
  parsed_or_resolved s none = first_resolved (addrs.to_socket_addrs s)

  -- `UnifyAddr::from_str`: of no bytes there is no first one.
  abbrev pub from_str : List ℕ → Option (Result {0, 0} (Unit {0}) (UnifyAddr A))
  from_str [] = none
  from_str (c ∷ s) =
      if c == 47
      then some (ok (path (c ∷ s)))
      else some (parsed_or_resolved (c ∷ s) (addrs.parse_socket (c ∷ s)))

  abbrev pub ip_or_differs : A → Option I → Bool
  ip_or_differs a none = false
  ip_or_differs a (some i) = addrs.ip_eq (addrs.ip a) i

  abbrev pub socket_or_ip : A → List ℕ → Option A → Bool
  socket_or_ip a s (some b) = addrs.socket_eq a b
  socket_or_ip a s none = ip_or_differs a (addrs.parse_ip s)

  -- `PartialEq<str>`
  abbrev pub eq_str : UnifyAddr A → List ℕ → Bool
  eq_str (socket a) s = socket_or_ip a s (addrs.parse_socket s)
  eq_str (path p) s = addrs.path_eq p s

-- What stands under a name: a file, or a symbolic link to another name.
pub data Entry : Type 0 where
  file : ℕ → Entry
  link : List ℕ → Entry

-- A file system: the names that are taken.
abbrev pub Files : Type 0
Files = List (List ℕ × Entry)

abbrev pub entry_at : List ℕ → Files → Option Entry
entry_at p [] = none
entry_at p ((q, i) ∷ fs) = let rest = entry_at p fs in if bytes_eq q p then some i else rest

abbrev pub is_some : Option Entry → Bool
is_some none = false
is_some (some i) = true

abbrev pub resolved : (List ℕ → Bool) → Option Entry → Bool
resolved follow none = false
resolved follow (some (file i)) = true
resolved follow (some (link q)) = follow q

-- `Path::exists` follows symbolic links, at most so many: a link to nothing does not exist.
abbrev pub exists : ℕ → Files → List ℕ → Bool
exists zero fs p = false
exists (suc links) fs p = resolved (exists links fs) (entry_at p fs)

abbrev pub without : List ℕ → Files → Files
without p [] = []
without p ((q, i) ∷ fs) = let rest = without p fs in if bytes_eq q p then rest else (q, i) ∷ rest

-- What the file system permits: links that are followed behind a name, the removal of a file, and the changes of one binding.
pub record Permits : Type 0 where
  pub max_links : ℕ
  pub removes : List ℕ → Bool
  pub binds : Bool
  pub links : Bool
  pub sets_mode : Bool

-- "_dup"
abbrev pub dup_of : List ℕ → List ℕ
dup_of p = p ++ (95 ∷ 100 ∷ 117 ∷ 112 ∷ [])

abbrev pub Bound : Type 0
Bound = Result {0, 0} IoErr ℕ × Files

module _ (permits : Permits) where
  -- `if path.exists() { fs::remove_file(path)?; }`, and what comes then.
  abbrev pub remove_file : Bool → List ℕ → (Files → Bound) → Files → Bound
  remove_file true p next fs = next (without p fs)
  remove_file false p next fs = (err other, fs)

  abbrev pub remove_if : Bool → List ℕ → (Files → Bound) → Files → Bound
  remove_if true p next fs = remove_file (permits.removes p) p next fs
  remove_if false p next fs = next fs

  -- `set_permissions` and `from_unix`
  abbrev pub mode_set : Bool → ℕ → Files → Bound
  mode_set true l fs = (ok l, fs)
  mode_set false l fs = (err other, fs)

  -- `fs::hard_link` wants its new name free.
  abbrev pub linked : Bool → List ℕ → ℕ → Files → Bound
  linked true p l fs = mode_set permits.sets_mode l ((p, file l) ∷ fs)
  linked false p l fs = (err other, fs)

  -- `UnixListener::bind` makes the file of the socket `l`, and wants its name free.
  abbrev pub socket_bound : Bool → List ℕ → ℕ → Files → Bound
  socket_bound true p l fs =
      linked (permits.links && not (is_some (entry_at p ((dup_of p, file l) ∷ fs)))) p l
        ((dup_of p, file l) ∷ fs)
  socket_bound false p l fs = (err other, fs)

  abbrev pub bind_dup : List ℕ → ℕ → Files → Bound
  bind_dup p l fs = socket_bound (permits.binds && not (is_some (entry_at (dup_of p) fs))) p l fs

  -- `UnifyListener::bind` of a path
  abbrev pub bind_path : List ℕ → ℕ → Files → Bound
  bind_path p l fs =
      remove_if (exists (suc permits.max_links) fs p) p
        (λ fs₁.
          remove_if (exists (suc permits.max_links) fs₁ (dup_of p)) (dup_of p) (bind_dup p l) fs₁)
        fs
