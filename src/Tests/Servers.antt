-- ===== src/Tests/Servers.antt =====
-- The MCP servers and the sandbox.
use agentic_enterprise.Base.{
  ℕ, ◌+◌, ◌≤◌, ◌≡◌, refl, ap, true, Option, none, some, List, [], ◌∷◌, ◌++◌, arith, if◌then◌else◌,
  length, Text, codes, text_eq, is_surrogate, timeout_error, failure, err, ok, ◌⊎◌, Raises,
}
use agentic_enterprise.Mcp.Paths.{
  AbsolutePath, split, is_name, parts, is_absolute, join, parent, is_relative_to, resolve,
  resolve_in_root,
}
use agentic_enterprise.Mcp.Paths.Jail.{IsClean, resolve_in_root_jails}
use agentic_enterprise.Mcp.Files.{encoded_length, FileSystem, Server}
use agentic_enterprise.Mcp.Files.Audit.{Accepted}
use agentic_enterprise.Mcp.FinanceApi.{Account, Client, TokenRequest}
use agentic_enterprise.Mcp.Finance.{Transport}
use agentic_enterprise.Sandbox.Containers.{
  PodmanFails, TracksContainers, sandbox_leaves_no_container,
}
use agentic_enterprise.Sandbox.{
  PodmanFailure, validate_code, other_error, Engine, try_container, run_container,
  execute_sandboxed_code, execute_sandboxed_code_async,
}
use agentic_enterprise.Sandbox.Audit.{validated_call_is_recorded}
use agentic_enterprise.Database.{error}
use agentic_enterprise.Database.Rows.{is_storable}
use agentic_enterprise.Tests.Postgres.{postgres, postgres-HonoursColumns}
use agentic_enterprise.Sandbox.{returned as ran, failed as not_ran}

abbrev root : AbsolutePath
root = codes "srv" ∷ codes "files" ∷ []

-- srv/files/a is a link to b.
abbrev links : AbsolutePath → Option Text
links path =
    if is_relative_to path (codes "srv" ∷ codes "files" ∷ codes "a" ∷ [])
    then some (codes "b")
    else none

resolve_in_root_jails_example :
    (is_relative_to (root ++ codes "b" ∷ []) root ≡ true) × IsClean links (root ++ codes "b" ∷ [])
unfolding resolve_in_root join is_absolute parts split is_name resolve is_relative_to text_eq parent
resolve_in_root_jails_example =
    resolve_in_root_jails links 40 root (codes "x/../a") (root ++ codes "b" ∷ []) refl

-- A file system that holds one text.
abbrev pub file_system : FileSystem Text
file_system = record {
  readlink = λ files. links;
  links = 40;
  root = root;
  exists = λ files path. true;
  decode = λ files path. ok files;
  write_bytes = λ path content files. (ok tt, content);
  iterdir = λ files path. ok [];
  sorted = λ names. names;
}

abbrev pub server : Server Text
server = record { files = codes "old"; events = [] }

accepted :
    (content : Text) (bytes : ℕ)
    → encoded_length content ≡ ok bytes
    → bytes ≤ 10
    → Accepted file_system 10 postgres (codes "x") content server (root ++ codes "x" ∷ []) bytes
unfolding resolve_in_root join is_absolute parts split is_name resolve is_relative_to text_eq parent
accepted content bytes size within = record { size = size; within_limit = within; jailed = refl }

abbrev pub client : Client
client = record { client_id = codes "id"; client_secret = codes "s" }

abbrev pub request : TokenRequest
request = record {
  grant_type = codes "client_credentials";
  client_id = codes "id";
  client_secret = codes "s";
}

abbrev account : Account
account = record { balance = 5; currency = codes "EUR" }

-- A server that takes the second token only; the state counts the refreshes.
abbrev transport : Transport ℕ
transport = record {
  value = λ w. (ok (w ∷ []), w);
  force_refresh = λ w. w + 1;
  get = λ id token w.
      if text_eq token (1 ∷ [])
      then (ok (record { status_code = 200; json = ok account }), w)
      else (ok (record { status_code = 401; json = err failure }), w);
}

-- Podman with its containers in a stack; the code never ends in time.
abbrev without_first : List ℕ → List ℕ
without_first [] = []
without_first (c ∷ live) = live

abbrev engine : Engine (List ℕ)
engine = record {
  run = λ code live. (ran (length live), length live ∷ live);
  wait = λ c live. (not_ran (other_error timeout_error), live);
  logs = λ c live. (ran [], live);
  remove = λ c live. (ran tt, without_first live);
}

ran_as : {A : Type 0} {a b : A} → ran a ≡ ran b → a ≡ b
ran_as e = cc

engine-TracksContainers : TracksContainers engine
engine-TracksContainers = record {
  live = λ live. live;
  run_adds = λ code live c e. ap (λ n. n ∷ live) (ran_as e);
  wait_keeps = λ c live. refl;
  logs_keeps = λ c live. refl;
  remove_takes = λ c live rest e done. ap without_first e;
}

sandbox_leaves_no_container_example :
    let (result, live, events) =
      execute_sandboxed_code_async engine
        (λ e. codes "timed out")
        (λ text. text)
        postgres
        none
        (codes "while 1: 0")
        (7 ∷ [])
        [] in
    (live ≡ 7 ∷ [])
    ⊎ ((x : PodmanFailure) × PodmanFails engine engine-TracksContainers
          (codes "while 1: 0")
          (7 ∷ [])
          x
        × ((result ≡ ok (record { output = codes "timed out"; status = error })) ⊎ Raises result))
unfolding engine-TracksContainers
sandbox_leaves_no_container_example =
    sandbox_leaves_no_container engine engine-TracksContainers (λ e. codes "timed out")
      (λ text. text) none (codes "while 1: 0") (7 ∷ []) [] postgres

validated_call_is_recorded_example :
    (execute_sandboxed_code_async engine
        (λ e. codes "timed out")
        (λ text. text)
        postgres
        (some (codes "t"))
        (codes "while 1: 0")
        (7 ∷ [])
        []
      ≡ (
        ok (record { output = codes "timed out"; status = error }),
        7 ∷ [],
        record {
          thread_id = some (codes "t");
          code_length = 10;
          outcome = error;
          detail = codes "timed out";
        }
            ∷ [],
      ))
    × (10 ≤ 4000)
    × (9 ≤ 512)
unfolding execute_sandboxed_code run_container try_container validate_code is_storable is_surrogate
validated_call_is_recorded_example =
    validated_call_is_recorded engine (λ e. codes "timed out") (λ text. text) postgres
      postgres-HonoursColumns (codes "t") (codes "while 1: 0") (7 ∷ []) [] refl (omega arith) refl
      refl refl

abbrev long_thread : Text
long_thread =
    codes
      "0123456789abcdef0123456789abcdef0123456789abcdef0123456789abcdef0123456789abcdef0123456789abcdef0123456789abcdef0123456789abcdef0"
