-- ===== src/Io/Options/Tests.antt =====
-- Runs of the option loops.
use serversidedev.Prelude.{◌≡◌, refl, List, [], ◌∷◌}
use serversidedev.Prelude.Int.{pos, int_of}
use serversidedev.Prelude.CString.{codes}
use serversidedev.Prelude.Served.{exits, goes_on, unless_ended}
use serversidedev.Lhf.Strtol.{strtol, skip_spaces, skip_sign, read_digits, to_long}
use serversidedev.Io.Options.{
  Opt, Options, parse_options_common, server_option, server_options, client_options,
}
use serversidedev.Io.Options.LastValue.{
  Sets, value_of, values, is_server_letter, is_client_letter, options-Set,
}

-- -P 80 -P 9x
abbrev twice : List Opt
twice = record { ch = 80; optarg = codes "80" } ∷ record { ch = 80; optarg = codes "9x" } ∷ []

last_port : server_options twice (pos 25000) ≡ goes_on (pos 9)
unfolding server_options server_option unless_ended strtol skip_spaces skip_sign read_digits to_long
    int_of
last_port = refl

-- -t is no option of the server.
unknown_option :
    server_options (record { ch = 63; optarg = [] } ∷ twice) (pos 25000) ≡ exits 1 (pos 25000)
unfolding server_options server_option unless_ended parse_options_common
unknown_option = refl

options-Set_example :
    Sets is_server_letter twice (value_of 80 (pos 25000) twice) (server_options twice (pos 25000))
    × ((o : Options) → Sets is_client_letter twice (values twice o) (client_options twice o))
options-Set_example = options-Set twice (pos 25000)
