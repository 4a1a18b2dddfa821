-- ===== src/Tests/Bank.antt =====
-- The finance server over the finance API, and a file that is written and read.
use agentic_enterprise.Base.{
  ℕ, ◌≡◌, refl, ◌↔◌, false, some, [], ◌∷◌, arith, Text, codes, is_surrogate, text_eq, lookup,
  failure, Result, err,
}
use agentic_enterprise.Schemas.{is_slug}
use agentic_enterprise.Mcp.Finance.{Response, call_api}
use agentic_enterprise.Mcp.FinanceApi.{balances, knows_client}
use agentic_enterprise.Mcp.Bank.{World, bank}
use agentic_enterprise.Mcp.Bank.Lookups.{answer_for, IsServed, lookup_survives_revocation}
use agentic_enterprise.Mcp.Files.{encoded_length, universal_newlines, write_text_file}
use agentic_enterprise.Mcp.Paths.{resolve_in_root}
use agentic_enterprise.Database.Rows.{is_storable, is_blank_after}
use agentic_enterprise.Mcp.Files.Newlines.{has_cr}
use agentic_enterprise.Mcp.Files.Reading.{RemembersWrites, Reads, write-read}
use agentic_enterprise.Tests.Postgres.{postgres}
use agentic_enterprise.Tests.Servers.{client, request, file_system, server}

abbrev uuid4 : ℕ → Text
uuid4 n = n ∷ []

abbrev elsewhere : Text → Result Response
elsewhere account_id = err failure

-- The cache holds a token that is not expired, and the API has lost its tokens by a restart.
abbrev world : World
world = record {
  cache = record { access_token = some (codes "old"); expires_at = 9000 };
  issued = [];
  clock = 5000;
  made = 7;
}

world-IsServed : IsServed client request uuid4 3 4 elsewhere
unfolding text_eq knows_client
world-IsServed = record { grant = refl; known = refl; delays = omega arith }

lookup_survives_revocation_example :
    (call_api (bank client request uuid4 3 4 elsewhere) (codes "ACC-1001") world).0
    ≡ answer_for (lookup (codes "ACC-1001") balances)
unfolding is_slug
lookup_survives_revocation_example =
    lookup_survives_revocation client request uuid4 3 4 elsewhere (codes "ACC-1001") world refl
      world-IsServed

file_system-RemembersWrites : RemembersWrites file_system
file_system-RemembersWrites = record {
  holds = λ target content files e. refl;
  keeps_links = λ target path content files. refl;
}

write-read_example :
    Reads file_system 10 postgres file_system-RemembersWrites
      (codes "x")
      (universal_newlines (97 ∷ b'\r' ∷ []))
      (write_text_file file_system 10 postgres (codes "x") (97 ∷ b'\r' ∷ []) server).1
    × ((universal_newlines (97 ∷ b'\r' ∷ []) ≡ 97 ∷ b'\r' ∷ [])
        ↔ (has_cr (97 ∷ b'\r' ∷ []) ≡ false))
unfolding write_text_file encoded_length resolve_in_root text_eq is_storable is_surrogate
    is_blank_after
write-read_example =
    write-read file_system 10 postgres file_system-RemembersWrites (codes "x") (97 ∷ b'\r' ∷ [])
      server 2 refl
