-- ===== src/Io/Options/LastValue.antt =====
-- An option has the value of its last occurrence.
use serversidedev.Prelude.{
  ℕ, ◌≡◌, refl, sym, ap, ◌∙◌, Bool, true, false, ◌&&◌, ◌||◌, Bool-cases, inl, inr, Option, none,
  some, List, [], ◌∷◌, ◌==◌, if◌then◌else◌, arith,
}
use serversidedev.Prelude.Int.{ℤ}
use serversidedev.Prelude.Served.{Served, goes_on, exits, unless_ended}
use serversidedev.Io.Options.{
  Opt, atoi, parse_options_common, server_option, server_options, Options, client_option,
  client_options,
}

-- A later argument, or else an earlier one; and the value of an argument, or else another one.
abbrev pub or_else : Option (List ℕ) → Option (List ℕ) → Option (List ℕ)
or_else (some later) earlier = some later
or_else none earlier = earlier

abbrev pub atoi_or : Option (List ℕ) → ℤ → ℤ
atoi_or (some optarg) initial = atoi optarg
atoi_or none initial = initial

-- The argument of the last occurrence of a letter.
abbrev pub last_arg : ℕ → List Opt → Option (List ℕ)
last_arg letter [] = none
last_arg letter (opt ∷ opts) =
    or_else (last_arg letter opts) (if opt.ch == letter then some opt.optarg else none)

abbrev pub value_of : ℕ → ℤ → List Opt → ℤ
value_of letter initial opts = atoi_or (last_arg letter opts) initial

-- Whether all letters are known.
abbrev pub all_known : (ℕ → Bool) → List Opt → Bool
all_known known [] = true
all_known known (opt ∷ opts) = known opt.ch && all_known known opts

abbrev pub is_client_letter : ℕ → Bool
is_client_letter ch = (ch == 116) || (ch == 99) || (ch == 80)

-- The options are all known and set these values, or one is not and the process has ended with status 1.
abbrev pub Sets : {A : Type 0} → (ℕ → Bool) → List Opt → A → Served A → Type 0
Sets known opts values (goes_on o) = (all_known known opts ≡ true) × (o ≡ values)
Sets known opts values (exits exitstatus o) = (all_known known opts ≡ false) × (exitstatus ≡ 1)

never_zero : (ch : ℕ) → (parse_options_common ch == 0) ≡ false
unfolding parse_options_common
never_zero ch = ground arith

-- The value with one more option in front, which the later ones may set again.
value_of-step :
    (letter : ℕ) (initial : ℤ) (opt : Opt) (opts : List Opt)
    → value_of letter initial (opt ∷ opts)
      ≡ value_of letter (if opt.ch == letter then atoi opt.optarg else initial) opts
value_of-step letter initial opt opts = front (last_arg letter opts) (opt.ch == letter)
  where
    front :
        (l : Option (List ℕ)) (is_it : Bool)
        → atoi_or (or_else l (if is_it then some opt.optarg else none)) initial
          ≡ atoi_or l (if is_it then atoi opt.optarg else initial)
    front (some optarg) is_it = refl
    front none true = refl
    front none false = refl

Sets-more :
    {A : Type 0} (known : ℕ → Bool) (opt : Opt) (opts : List Opt) (values values1 : A)
    (out : Served A)
    → known opt.ch ≡ true
    → values ≡ values1
    → Sets known opts values out
    → Sets known (opt ∷ opts) values1 out
Sets-more known opt opts values values1 (goes_on o) k e (all, same) = (rw k all, same ∙ e)
Sets-more known opt opts values values1 (exits exitstatus o) k e (some_unknown, status) =
    (rw k some_unknown, status)

-- One option in front, which is known or not.
Sets-option :
    {A : Type 0} (known : ℕ → Bool) (opt : Opt) (opts : List Opt) (values values1 set old : A)
    (more : A → Served A) (is_known : Bool)
    → known opt.ch ≡ is_known
    → values ≡ values1
    → Sets known opts values (more set)
    → Sets known
        (opt ∷ opts)
        values1
        (unless_ended (if is_known then goes_on set else exits 1 old) more)
unfolding unless_ended
Sets-option known opt opts values values1 set old more true k e later =
    Sets-more known opt opts values values1 (more set) k e later
Sets-option known opt opts values values1 set old more false k e later =
    (ap (λ b. b && all_known known opts) k, refl)

abbrev pub is_server_letter : ℕ → Bool
is_server_letter ch = ch == 80

server_option_lem :
    (opt : Opt) (opport : ℤ)
    → server_option opt opport ≡ (
        if is_server_letter opt.ch
        then goes_on (if opt.ch == 80 then atoi opt.optarg else opport)
        else exits 1 opport)
unfolding server_option
server_option_lem opt opport = elim (Bool-cases (opt.ch == 80)) [
  | inl is_p ↦ rw is_p refl
  | inr unknown ↦ rw unknown (rw (never_zero opt.ch) refl)
]

server_options-Sets :
    (opts : List Opt) (opport : ℤ)
    → Sets is_server_letter opts (value_of 80 opport opts) (server_options opts opport)
unfolding server_options unless_ended
server_options-Sets [] opport = (refl, refl)
server_options-Sets (opt ∷ opts) opport =
    let set = if opt.ch == 80 then atoi opt.optarg else opport in
    rw (server_option_lem opt opport) (
      Sets-option is_server_letter opt opts (value_of 80 set opts) (value_of 80 opport (opt ∷ opts))
        set opport (λ opport1. server_options opts opport1) (is_server_letter opt.ch) refl
        (sym (value_of-step 80 opport opt opts)) (server_options-Sets opts set))

-- What the options make of the globals.
abbrev pub values : List Opt → Options → Options
values opts o = record {
  opthread_num = value_of 116 o.opthread_num opts;
  opconn_num = value_of 99 o.opconn_num opts;
  opport = value_of 80 o.opport opts;
}

-- The globals after one option.
abbrev set_one : Opt → Options → Options
set_one opt o = record {
  opthread_num = if opt.ch == 116 then atoi opt.optarg else o.opthread_num;
  opconn_num = if opt.ch == 99 then atoi opt.optarg else o.opconn_num;
  opport = if opt.ch == 80 then atoi opt.optarg else o.opport;
}

values-step :
    (opt : Opt) (opts : List Opt) (o : Options)
    → values opts (set_one opt o) ≡ values (opt ∷ opts) o
values-step opt opts o = cc (
  value_of-step 116 o.opthread_num opt opts,
  value_of-step 99 o.opconn_num opt opts,
  value_of-step 80 o.opport opt opts,
)

client_option_lem :
    (opt : Opt) (o : Options)
    → client_option opt o ≡ (if is_client_letter opt.ch then goes_on (set_one opt o) else exits 1 o)
unfolding client_option
client_option_lem opt o = elim (Bool-cases (opt.ch == 116)) [
  | inl is_t ↦
      rw is_t (rw (apart opt.ch 116 99 is_t refl) (rw (apart opt.ch 116 80 is_t refl) refl))
  | inr not_t ↦ rw not_t (elim (Bool-cases (opt.ch == 99)) [
    | inl is_c ↦ rw is_c (rw (apart opt.ch 99 80 is_c refl) refl)
    | inr not_c ↦ rw not_c (elim (Bool-cases (opt.ch == 80)) [
      | inl is_p ↦ rw is_p refl
      | inr unknown ↦ rw unknown (rw (never_zero opt.ch) refl)
    ])
  ])
]
  where
    apart : (ch a b : ℕ) → (ch == a) ≡ true → (a == b) ≡ false → (ch == b) ≡ false
    apart ch a b h ne = ground arith

client_options-Sets :
    (opts : List Opt) (o : Options)
    → Sets is_client_letter opts (values opts o) (client_options opts o)
unfolding client_options unless_ended
client_options-Sets [] o = (refl, refl)
client_options-Sets (opt ∷ opts) o = rw (client_option_lem opt o) (
    Sets-option is_client_letter opt opts (values opts (set_one opt o)) (values (opt ∷ opts) o)
      (set_one opt o) o (λ o1. client_options opts o1) (is_client_letter opt.ch) refl
      (values-step opt opts o) (client_options-Sets opts (set_one opt o)))

-- For any results of `getopt` and any values before, the loops that read the options of
-- io/css_echo_epoll.cpp and io/csc_echo_epoll.cpp give each global the value of the last option
-- with its letter, or the value it had without one, if all letters are known; if one is not, the
-- process ends with status 1.
pub options-Set :
    (opts : List Opt) (opport : ℤ)
    → Sets is_server_letter opts (value_of 80 opport opts) (server_options opts opport)
      × ((o : Options) → Sets is_client_letter opts (values opts o) (client_options opts o))
options-Set opts opport = (server_options-Sets opts opport, client_options-Sets opts)
