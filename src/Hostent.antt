-- ===== src/Hostent.antt =====
-- names/hostent.cpp: it prints what the name service says of its arguments.
use serversidedev.Prelude.{
  ℕ, ◌≡◌, refl, ap, sym, ◌∙◌, true, Option, none, some, List, [], ◌∷◌, ◌++◌, append_assoc,
  append_nil, map, ◌==◌, if◌then◌else◌,
}
use serversidedev.Prelude.Int.{pos}
use serversidedev.Prelude.CString.{codes, concat}
use serversidedev.Prelude.Served.{Served, goes_on, exits, unless_ended}
use serversidedev.Lhf.Strtol.{print_long}

-- `struct hostent`.
pub record Hostent : Type 0 where
  pub h_name : List ℕ
  pub h_aliases : List (List ℕ)
  pub h_addrtype : ℕ
  pub h_length : ℕ
  pub h_addr_list : List (List ℕ)

-- `gethostbyname`, and `inet_ntop` of an IPv4 address into 1024 bytes.
pub record Resolver : Type 0 where
  pub gethostbyname : List ℕ → Option Hostent
  pub inet_ntop : List ℕ → Option (List ℕ)

abbrev item_line : List ℕ → List ℕ
item_line s = codes "\t " ++ s ++ codes "\n"

module _ (resolver : Resolver) where
  -- `for(pstr=phe->h_addr_list;*pstr!=NULL;pstr++)`, after what has been printed.
  unfoldable print_addrs : List (List ℕ) → List ℕ → Served (List ℕ)
  print_addrs [] out = goes_on out
  print_addrs (addr ∷ addrs) out = elim (resolver.inet_ntop addr) [
    | none ↦ exits 1 out
    | some text ↦ print_addrs addrs (out ++ item_line text)
  ]

  abbrev heading : Hostent → List ℕ
  heading phe =
      codes "h_name\t:"
      ++ phe.h_name
      ++ codes "\nh_aliases\t:\n"
      ++ concat (map item_line phe.h_aliases)
      ++ codes "h_length\t:"
      ++ print_long (pos phe.h_length)
      ++ codes "\nh_addr_list\t:\n"

  abbrev rule : List ℕ
  rule = codes "--------------------------------\n"

  -- A round for a name. AF_INET is 2.
  unfoldable print_host : List ℕ → List ℕ → Served (List ℕ)
  unfolding print_addrs unless_ended
  print_host name out = elim (resolver.gethostbyname name) [
    | none ↦ exits 1 out
    | some phe ↦
        unless_ended
          (if phe.h_addrtype == 2
            then print_addrs phe.h_addr_list (out ++ heading phe)
            else exits 1 (out ++ heading phe))
          (λ out1. goes_on (out1 ++ rule))
  ]

  unfoldable print_hosts : List (List ℕ) → List ℕ → Served (List ℕ)
  unfolding print_host
  print_hosts [] out = exits 0 out
  print_hosts (name ∷ names) out =
      unless_ended (print_host name out) (λ out1. print_hosts names out1)

  -- The texts of addresses, if all have one.
  abbrev Texts : List (List ℕ) → List (List ℕ) → Type 0
  Texts [] [] = Unit
  Texts [] (text ∷ texts) = ⊥
  Texts (addr ∷ addrs) [] = ⊥
  Texts (addr ∷ addrs) (text ∷ texts) = (resolver.inet_ntop addr ≡ some text) × Texts addrs texts

  print_addrs_lem :
      (addrs texts : List (List ℕ)) (out : List ℕ)
      → Texts addrs texts
      → print_addrs addrs out ≡ goes_on (out ++ concat (map item_line texts))
  unfolding print_addrs
  print_addrs_lem [] [] out h = ap goes_on (sym (append_nil out))
  print_addrs_lem [] (text ∷ texts) out h = absurd h
  print_addrs_lem (addr ∷ addrs) [] out h = absurd h
  print_addrs_lem (addr ∷ addrs) (text ∷ texts) out (e, h) =
      rw (e, print_addrs)
        (print_addrs_lem addrs texts (out ++ item_line text) h
          ∙ ap goes_on (append_assoc out (item_line text) (concat (map item_line texts))))

  -- A name that the service knows, with IPv4 addresses that have these texts, is printed with them, and the next one follows.
  print_hosts-name :
      (name : List ℕ) (names texts : List (List ℕ)) (phe : Hostent) (out : List ℕ)
      → resolver.gethostbyname name ≡ some phe
      → (phe.h_addrtype == 2) ≡ true
      → Texts phe.h_addr_list texts
      → print_hosts (name ∷ names) out
        ≡ print_hosts names (((out ++ heading phe) ++ concat (map item_line texts)) ++ rule)
  unfolding print_hosts print_host unless_ended
  print_hosts-name name names texts phe out found inet have =
      rw (found, print_host)
        (rw inet (rw (print_addrs_lem phe.h_addr_list texts (out ++ heading phe) have) refl))
