-- ===== src/Actors/Modules/Singles.antt =====
-- Which actor a module of the configuration is.
use fabaccess_server.Prelude.{
  ◌≡◌, ◌↔◌, refl, sym, ap, subst, ◌∙◌, Bool-cases, Option, none, some, Option-cases, inl, inr, List,
  [], str_eq, str_eq_sound, lookup, Str, codes,
}
use fabaccess_server.Actors.Process.{Process, new_process}
use fabaccess_server.Actors.Mqtt.{unwrap_or}
use fabaccess_server.Actors.Modules.{
  Shelly, command_topic, new_shelly, Dummy, Actor, a_dummy, a_process, a_shelly, ModuleConfig,
  boxed, load_single,
}

module _ (split_whitespace : Str → List Str) where
  -- The words of a parameter that may be left out.
  abbrev pub words : Option Str → List Str
  words none = []
  words (some argv) = split_whitespace argv

  -- The module's name says which actor it is, and its parameters what it is given.
  abbrev pub IsActor : Str → ModuleConfig → Actor → Type 0
  IsActor name config (a_dummy d) =
      (config.module_name ≡ codes "Dummy") × (d ≡ record { name = name; params = config.params })
  IsActor name config (a_process p) =
      (config.module_name ≡ codes "Process")
      × (lookup config.params (codes "cmd") ≡ some p.cmd)
      × (p.name ≡ name)
      × (p.args ≡ words (lookup config.params (codes "args")))
  IsActor name config (a_shelly s) =
      (config.module_name ≡ codes "Shelly")
      × (s.name ≡ name)
      × (s.topic ≡ command_topic (unwrap_or name (lookup config.params (codes "topic"))))

  abbrev Each : Str → ModuleConfig → Option Actor → Type 0
  Each name config none = Unit
  Each name config (some a) = IsActor name config a

  -- The two constructors with their parameters in one place.
  abbrev process_of : Str → List (Str × Str) → Option Str → Option Process
  process_of name params none = none
  process_of name params (some cmd) =
      some (record { name = name; cmd = cmd; args = words (lookup params (codes "args")) })

  new_process-process_of :
      (name : Str) (params : List (Str × Str))
      → new_process split_whitespace name params
        ≡ process_of name params (lookup params (codes "cmd"))
  unfolding new_process
  new_process-process_of name params = elim (Option-cases (lookup params (codes "cmd"))) [
    | inl e ↦ rw (new_process, e)
    | inr (cmd, e) ↦ elim (Option-cases (lookup params (codes "args"))) [
      | inl f ↦ rw (new_process, e, f)
      | inr (argv, f) ↦ rw (new_process, e, f)
    ]
  ]

  abbrev shelly_of : Str → List (Str × Str) → Shelly
  shelly_of name params = record {
    name = name;
    topic = command_topic (unwrap_or name (lookup params (codes "topic")));
  }

  new_shelly-shelly_of :
      (name : Str) (params : List (Str × Str)) → new_shelly name params ≡ shelly_of name params
  unfolding new_shelly
  new_shelly-shelly_of name params = elim (Option-cases (lookup params (codes "topic"))) [
    | inl e ↦ rw (new_shelly, e)
    | inr (topic, e) ↦ rw (new_shelly, e)
  ]

  process-Each :
      (name : Str) (config : ModuleConfig) (o : Option Str)
      → config.module_name ≡ codes "Process"
      → lookup config.params (codes "cmd") ≡ o
      → Each name config (boxed (process_of name config.params o))
  process-Each name config none h e = tt
  process-Each name config (some cmd) h e = (h, e, refl, refl)

  load_single-Each :
      (name : Str) (config : ModuleConfig)
      → Each name config (load_single split_whitespace name config)
  unfolding load_single
  load_single-Each name config = elim (Bool-cases (str_eq config.module_name (codes "Dummy"))) [
    | inl e ↦ rw (e, load_single) (str_eq_sound _ _ e, refl)
    | inr a ↦ elim (Bool-cases (str_eq config.module_name (codes "Process"))) [
      | inl e ↦
          rw (a, e, load_single, new_process-process_of name config.params)
            (process-Each name config (lookup config.params (codes "cmd")) (str_eq_sound _ _ e)
              refl)
      | inr b ↦ elim (Bool-cases (str_eq config.module_name (codes "Shelly"))) [
        | inl e ↦
            rw (a, b, e, load_single, new_shelly-shelly_of name config.params)
              (str_eq_sound _ _ e, refl, refl)
        | inr c ↦ rw (a, b, c, load_single) tt
      ]
    ]
  ]

  process_given :
      (name : Str) (config : ModuleConfig) (p : Process)
      → lookup config.params (codes "cmd") ≡ some p.cmd
      → p.name ≡ name
      → p.args ≡ words (lookup config.params (codes "args"))
      → new_process split_whitespace name config.params ≡ some p
  process_given name config p cmd same args =
      new_process-process_of name config.params
      ∙ (ap (process_of name config.params) cmd
          ∙ (λ i. some (record { name = sym same i; cmd = p.cmd; args = sym args i })))

  shelly_given :
      (name : Str) (config : ModuleConfig) (s : Shelly)
      → s.name ≡ name
      → s.topic ≡ command_topic (unwrap_or name (lookup config.params (codes "topic")))
      → new_shelly name config.params ≡ s
  shelly_given name config s same topic =
      new_shelly-shelly_of name config.params
      ∙ (λ i. record { name = sym same i; topic = sym topic i })

  given :
      (name : Str) (config : ModuleConfig) (a : Actor)
      → IsActor name config a
      → load_single split_whitespace name config ≡ some a
  unfolding load_single str_eq
  given name config (a_dummy d) (h, e) =
      rw (load_single, h) (ap (λ (x : Dummy). some (a_dummy x)) (sym e))
  given name config (a_process p) (h, cmd, same, args) =
      rw (load_single, h) (ap boxed (process_given name config p cmd same args))
  given name config (a_shelly s) (h, same, topic) =
      rw (load_single, h)
        (ap (λ (x : Shelly). some (a_shelly x)) (shelly_given name config s same topic))

  pub load_single_iff :
      (name : Str) (config : ModuleConfig) (a : Actor)
      → (load_single split_whitespace name config ≡ some a) ↔ IsActor name config a
  load_single_iff name config a =
      (λ h. subst (Each name config) h (load_single-Each name config), given name config a)
