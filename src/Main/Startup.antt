-- ===== src/Main/Startup.antt =====
-- What must have succeeded before the manager starts.
use gateway_orchestrator.Prelude.{◌≡◌, Exec, ok, ◌⊎◌, Result, ◌>>=◌, ◌>>◌}
use gateway_orchestrator.Main.{
  Platform, Flags, Exit, ManagerOptions, manager_options, new_reconciler, setup_with_manager,
  default_flags, or_exit,
}

-- The calls before the start leave a part of the world alone.
pub record Unstarted {W Config Rest Manager X : Type 0} (p : Platform W Config Rest Manager)
    (look : W → X) : Type 0 where
  pub parse : (f : Flags) (w : W) → look (p.parse f w).1 ≡ look w
  pub load : (w : W) → look (p.load_default_config w).1 ≡ look w
  pub get_config : (w : W) → look (p.get_config_or_die w).1 ≡ look w
  pub new_manager :
      (rest : Rest) (o : ManagerOptions) (w : W) → look (p.new_manager rest o w).1 ≡ look w
  pub setup :
      (flags : Flags) (cfg : Config) (mgr : Manager) (w : W)
      → look (setup_with_manager p mgr (new_reconciler p flags cfg mgr) w).1 ≡ look w
  pub healthz : (mgr : Manager) (w : W) → look (p.add_healthz_check mgr "healthz" w).1 ≡ look w
  pub readyz : (mgr : Manager) (w : W) → look (p.add_readyz_check mgr "readyz" w).1 ≡ look w

module _ {W Config Rest Manager : Type 0} (p : Platform W Config Rest Manager) where
  -- The calls of `main`, with what it makes of their failures.
  abbrev load : Exec W Exit Config
  load = or_exit "unable to load AWS config" p.load_default_config

  abbrev manager : Flags → Rest → Exec W Exit Manager
  manager flags rest =
      or_exit "unable to start manager" (p.new_manager rest (manager_options flags))

  abbrev register : Flags → Config → Manager → Exec W Exit (Unit {0})
  register flags cfg mgr =
      or_exit "unable to create controller"
        (setup_with_manager p mgr (new_reconciler p flags cfg mgr))

  abbrev health : Manager → Exec W Exit (Unit {0})
  health mgr = or_exit "unable to set up health check" (p.add_healthz_check mgr "healthz")

  abbrev ready : Manager → Exec W Exit (Unit {0})
  ready mgr = or_exit "unable to set up ready check" (p.add_readyz_check mgr "readyz")

  abbrev begin : Manager → Exec W Exit (Unit {0})
  begin mgr = or_exit "problem running manager" (p.start mgr)

  -- What is left of `main` behind each of the first calls.
  abbrev behind_manager : Flags → Config → Manager → Exec W Exit (Unit {0})
  behind_manager flags cfg mgr = register flags cfg mgr >> (health mgr >> (ready mgr >> begin mgr))

  abbrev behind_rest : Flags → Config → Rest → Exec W Exit (Unit {0})
  behind_rest flags cfg rest = manager flags rest >>= behind_manager flags cfg

  abbrev behind_load : Flags → Config → Exec W Exit (Unit {0})
  behind_load flags cfg = p.get_config_or_die >>= behind_rest flags cfg

  abbrev behind_parse : Flags → Exec W Exit (Unit {0})
  behind_parse flags = load >>= behind_load flags

  -- The run from w that ends in `out` has read its flags, its two configurations and made its
  -- manager, each call in the state that the one before has left, has then registered the
  -- reconciler made from these and added both checks, each without an error and with the part as
  -- it was, and its end is that of the start of that manager.
  pub record Wired {X : Type 0} (look : W → X) (w : W) (out : Result Exit (Unit {0}) × W)
      : Type 0 where
    pub flags : Flags
    pub cfg : Config
    pub rest : Rest
    pub mgr : Manager
    pub parsed : (p.parse default_flags w).0 ≡ ok flags
    pub loaded : (load (p.parse default_flags w).1).0 ≡ ok cfg
    pub configured : (p.get_config_or_die (load (p.parse default_flags w).1).1).0 ≡ ok rest
    pub managed :
        (manager flags rest (p.get_config_or_die (load (p.parse default_flags w).1).1).1).0 ≡ ok mgr
    pub point : W
    pub point_is :
        point ≡ (manager flags rest (p.get_config_or_die (load (p.parse default_flags w).1).1).1).1
    pub registered : (register flags cfg mgr point).0 ≡ ok tt
    pub healthy : (health mgr (register flags cfg mgr point).1).0 ≡ ok tt
    pub prepared : (ready mgr (health mgr (register flags cfg mgr point).1).1).0 ≡ ok tt
    pub untouched : look (ready mgr (health mgr (register flags cfg mgr point).1).1).1 ≡ look w
    pub started : out ≡ begin mgr (ready mgr (health mgr (register flags cfg mgr point).1).1).1

module _ {W Config Rest Manager X : Type 0} (p : Platform W Config Rest Manager) (look : W → X)
    (frame : Unstarted p look) (w : W) where
  abbrev pub After : Result Exit (Unit {0}) × W → Type 0
  After out = (look out.1 ≡ look w) ⊎ Wired p look w out
