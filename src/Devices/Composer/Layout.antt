-- ===== src/Devices/Composer/Layout.antt =====
-- composer.go: where the registers of a composed device lie, and in which group they are polled.
use open_machine_core.Prelude.{
  ℕ, suc, String, List, [], ◌∷◌, ◌++◌, ◌≡◌, refl, sym, ap, subst, ◌∙◌, str_eq, if◌then◌else◌, ◌⊎◌,
  inl, inr, leb, map, Bool, true, false, All, All-append, append-nil, append_assoc, if_rule,
}
use open_machine_core.Prelude.Text.{text_append}
use mathlib.Core.List.{Permᴰ}
use mathlib.Core.List.Permᴰ
use open_machine_core.Prelude.Int.{ℤ, pos, ◌+ℤ◌, wrap}
use open_machine_core.Types.{
  Float64, RegisterType, AccessType, RegisterDefinition, RegisterGroup, TerminalConfig,
  ModuleDefinition, ChannelInfo, ProcessImageInfo,
}
use open_machine_core.Devices.Composer.{
  register_of, twice, ComposeError, channel_to_register, channels_to_registers, names_at,
  create_register_groups, group_unless_empty, compose_terminals, after_terminals, terminal_offsets,
}

-- An input register that is read, or a holding register that is read and written.
abbrev pub IsIo : {F : Type 0} → RegisterDefinition F → Type 0
IsIo r =
    ((r.register_type ≡ RegisterType.input_register) × (r.access ≡ AccessType.read_only))
    ⊎ ((r.register_type ≡ RegisterType.holding_register) × (r.access ≡ AccessType.read_write))

-- the names of all groups
abbrev pub group_names : List RegisterGroup → List String
group_names [] = []
group_names (g ∷ gs) = g.registers ++ group_names gs

chosen :
    {F : Type 0} (a b c d : Bool) (r₁ r₂ r₃ r₄ r₅ : RegisterDefinition F)
    → IsIo r₁
    → IsIo r₂
    → IsIo r₃
    → IsIo r₄
    → IsIo r₅
    → IsIo (if a then r₁ else if b then r₂ else if c then r₃ else if d then r₄ else r₅)
chosen true b c d r₁ r₂ r₃ r₄ r₅ h₁ h₂ h₃ h₄ h₅ = h₁
chosen false true c d r₁ r₂ r₃ r₄ r₅ h₁ h₂ h₃ h₄ h₅ = h₂
chosen false false true d r₁ r₂ r₃ r₄ r₅ h₁ h₂ h₃ h₄ h₅ = h₃
chosen false false false true r₁ r₂ r₃ r₄ r₅ h₁ h₂ h₃ h₄ h₅ = h₄
chosen false false false false r₁ r₂ r₃ r₄ r₅ h₁ h₂ h₃ h₄ h₅ = h₅

-- A name goes into one of two groups.
placed :
    (slow : Bool) (x : String) (fast_names slow_names names : List String)
    → Permᴰ (fast_names ++ slow_names) names
    → Permᴰ
        ((if slow then fast_names else x ∷ fast_names)
          ++ (if slow then x ∷ slow_names else slow_names))
        (x ∷ names)
placed true x fs ss ns p = Permᴰ.trans (Permᴰ.middle x fs ss) (Permᴰ.cons refl p)
placed false x fs ss ns p = Permᴰ.cons refl p

group_unless_empty-names :
    (n m : String) (i j : ℕ) (fs ss : List String)
    → group_names (group_unless_empty n i fs ++ group_unless_empty m j ss) ≡ fs ++ ss
group_unless_empty-names n m i j [] [] = refl
group_unless_empty-names n m i j [] (s ∷ ss) = append-nil (s ∷ ss)
group_unless_empty-names n m i j (f ∷ fs) [] = refl
group_unless_empty-names n m i j (f ∷ fs) (s ∷ ss) =
    ap (λ (r : List String). (f ∷ fs) ++ r) (append-nil (s ∷ ss))

module _ (fl : Float64) where
  open fl use {F}

  names_at-Permᴰ :
      (regs : List (RegisterDefinition F))
      → Permᴰ (names_at fl false regs ++ names_at fl true regs) (map (λ r. r.name) regs)
  unfolding names_at
  names_at-Permᴰ [] = Permᴰ.nil
  names_at-Permᴰ (reg ∷ regs) =
      placed (leb 4000 reg.address) reg.name (names_at fl false regs) (names_at fl true regs)
        (map (λ r. r.name) regs) (names_at-Permᴰ regs)

  -- The poll groups together hold the names of the registers, each as often as it occurs.
  pub create_register_groups-Permᴰ :
      (regs : List (RegisterDefinition F))
      → Permᴰ (group_names (create_register_groups fl regs)) (map (λ r. r.name) regs)
  unfolding create_register_groups
  create_register_groups-Permᴰ regs =
      subst (λ (ns : List String). Permᴰ ns (map (λ r. r.name) regs))
        (sym (
          group_unless_empty-names "io_fast" "diagnostics" 20 1000 (names_at fl false regs)
            (names_at fl true regs)))
        (names_at-Permᴰ regs)

  channel_to_register-IsIo :
      (c : ChannelInfo) (p : String) (a b : ℤ) → IsIo (channel_to_register fl c p a b)
  unfolding channel_to_register
  channel_to_register-IsIo c p a b =
      chosen (str_eq c.channel_type "digital_input") (str_eq c.channel_type "digital_output")
        (str_eq c.channel_type "analog_input") (str_eq c.channel_type "analog_output")
        (register_of fl c p RegisterType.input_register (wrap 65536 a) AccessType.read_only)
        (register_of fl c p RegisterType.holding_register (wrap 65536 b) AccessType.read_write)
        (register_of fl c p RegisterType.input_register (wrap 65536 (a +ℤ twice c.id))
          AccessType.read_only)
        (register_of fl c p RegisterType.holding_register (wrap 65536 (b +ℤ twice c.id))
          AccessType.read_write)
        (register_of fl c p RegisterType.input_register 0 AccessType.read_only) (inl (refl, refl))
        (inr (refl, refl)) (inl (refl, refl)) (inr (refl, refl)) (inl (refl, refl))

  channels-IsIo :
      (cs : List ChannelInfo) (p : String) (a b : ℤ)
      → All IsIo (map (λ c. channel_to_register fl c p a b) cs)
  channels-IsIo [] p a b = tt
  channels-IsIo (c ∷ cs) p a b = (channel_to_register-IsIo c p a b, channels-IsIo cs p a b)

  -- Where a channel's register lies, by the channel's type, and how it is accessed.
  pub record PlacedAt (prefix : String) (input output : ℤ) (c : ChannelInfo)
      (r : RegisterDefinition F) : Type 0 where
    pub named : r.name ≡ text_append prefix (text_append "." c.name)
    pub digital_input :
        c.channel_type ≡ "digital_input"
        → (r.address ≡ wrap 65536 input)
          × (r.register_type ≡ RegisterType.input_register)
          × (r.access ≡ AccessType.read_only)
    pub digital_output :
        c.channel_type ≡ "digital_output"
        → (r.address ≡ wrap 65536 output)
          × (r.register_type ≡ RegisterType.holding_register)
          × (r.access ≡ AccessType.read_write)
    pub analog_input :
        c.channel_type ≡ "analog_input"
        → (r.address ≡ wrap 65536 (input +ℤ (c.id +ℤ c.id)))
          × (r.register_type ≡ RegisterType.input_register)
          × (r.access ≡ AccessType.read_only)
    pub analog_output :
        c.channel_type ≡ "analog_output"
        → (r.address ≡ wrap 65536 (output +ℤ (c.id +ℤ c.id)))
          × (r.register_type ≡ RegisterType.holding_register)
          × (r.access ≡ AccessType.read_write)

  channel_to_register-PlacedAt :
      (c : ChannelInfo) (p : String) (a b : ℤ) → PlacedAt p a b c (channel_to_register fl c p a b)
  unfolding channel_to_register
  channel_to_register-PlacedAt c p a b = record {
    named =
        let Named = λ (r : RegisterDefinition F). r.name ≡ text_append p (text_append "." c.name) in
        if_rule Named (str_eq c.channel_type "digital_input") _ _ (λ _. refl)
          (λ _.
            if_rule Named (str_eq c.channel_type "digital_output") _ _ (λ _. refl)
              (λ _.
                if_rule Named (str_eq c.channel_type "analog_input") _ _ (λ _. refl)
                  (λ _.
                    if_rule Named (str_eq c.channel_type "analog_output") _ _ (λ _. refl)
                      (λ _. refl))));
    digital_input = λ e. rw e (refl, refl, refl);
    digital_output = λ e. rw e (refl, refl, refl);
    analog_input = λ e. rw e (refl, refl, refl);
    analog_output = λ e. rw e (refl, refl, refl);
  }

  -- The registers of some channels, one for each.
  abbrev pub EachPlaced : String → ℤ → ℤ → List ChannelInfo → List (RegisterDefinition F) → Type 0
  EachPlaced p a b [] [] = Unit
  EachPlaced p a b (c ∷ cs) (r ∷ rs) = PlacedAt p a b c r × EachPlaced p a b cs rs
  EachPlaced p a b _ _ = ⊥

  channels-EachPlaced :
      (cs : List ChannelInfo) (p : String) (a b : ℤ)
      → EachPlaced p a b cs (map (λ c. channel_to_register fl c p a b) cs)
  channels-EachPlaced [] p a b = tt
  channels-EachPlaced (c ∷ cs) p a b =
      (channel_to_register-PlacedAt c p a b, channels-EachPlaced cs p a b)

  module _ (load_module : String → String ⊎ ModuleDefinition F) where
    same_module :
        (r : String ⊎ ModuleDefinition F) (d m : ModuleDefinition F) → r ≡ inr d → r ≡ inr m → d ≡ m
    same_module r d m h k = cc (h, k)

    after-inr :
        (regs : List (RegisterDefinition F)) (r : ComposeError ⊎ List (RegisterDefinition F))
        (all : List (RegisterDefinition F))
        → after_terminals fl load_module regs r ≡ inr all
        → (rest : List (RegisterDefinition F)) × (r ≡ inr rest) × (all ≡ regs ++ rest)
    after-inr regs (inl e) all h = cc
    after-inr regs (inr rest) all h = (rest, refl, cc h)

    -- the size of a terminal in the process image; none if its module cannot be loaded
    abbrev image_size : (ProcessImageInfo → ℤ) → String ⊎ ModuleDefinition F → ℤ
    image_size part (inl e) = pos 0
    image_size part (inr m) = part m.process_image

    -- The offset after some terminals: their sizes added to the first offset.
    unfoldable pub offset_after : (ProcessImageInfo → ℤ) → List TerminalConfig → ℤ → ℤ
    offset_after part [] a = a
    offset_after part (t ∷ ts) a =
        offset_after part ts (a +ℤ image_size part (load_module t.module_path))

    -- The channels of the terminal after `before`, at the offsets that `before` fills.
    first-at :
        (rest : ℕ → ℤ → ℤ → ComposeError ⊎ List (RegisterDefinition F)) (t : TerminalConfig)
        (r : String ⊎ ModuleDefinition F) (i : ℕ) (a b : ℤ) (regs : List (RegisterDefinition F))
        → terminal_offsets fl load_module rest t r i a b ≡ inr regs
        → (m : ModuleDefinition F) × (r ≡ inr m)
          × (more : List (RegisterDefinition F)) × (rest
                (suc i)
                (a +ℤ m.process_image.input_bytes)
                (b +ℤ m.process_image.output_bytes)
              ≡ inr more)
          × (regs ≡ channels_to_registers fl m t.prefix a b ++ more)
    first-at rest t (inl e) i a b regs h = cc
    first-at rest t (inr m) i a b regs h =
        let r =
          after-inr (channels_to_registers fl m t.prefix a b)
            (rest (suc i) (a +ℤ m.process_image.input_bytes) (b +ℤ m.process_image.output_bytes))
            regs h in
        (m, refl, r.0, r.1, r.2)

    terminals_mapped :
        (before after : List TerminalConfig) (t : TerminalConfig) (m : ModuleDefinition F) (i : ℕ)
        (a b : ℤ) (regs : List (RegisterDefinition F))
        → load_module t.module_path ≡ inr m
        → compose_terminals fl load_module (before ++ t ∷ after) i a b ≡ inr regs
        → (front back : List (RegisterDefinition F)) × (regs
            ≡ front
              ++ (map
                    (λ c.
                      channel_to_register fl c t.prefix
                        (offset_after (λ p. p.input_bytes) before a)
                        (offset_after (λ p. p.output_bytes) before b))
                    m.channels
                  ++ back))
    unfolding compose_terminals channels_to_registers offset_after
    terminals_mapped [] after t m i a b regs l e =
        let r =
          first-at (λ j x y. compose_terminals fl load_module after j x y) t
            (load_module t.module_path) i a b regs e in
        let same = same_module (load_module t.module_path) r.0 m r.1 l in
        (
          [],
          r.2,
          r.4
              ∙ ap (λ (d : ModuleDefinition F). channels_to_registers fl d t.prefix a b ++ r.2)
                  same,
        )
    terminals_mapped (s ∷ before) after t m i a b regs l e =
        let r =
          first-at (λ j x y. compose_terminals fl load_module (before ++ t ∷ after) j x y) s
            (load_module s.module_path) i a b regs e in
        let h =
          terminals_mapped before after t m (suc i)
            (a +ℤ image_size (λ p. p.input_bytes) (load_module s.module_path))
            (b +ℤ image_size (λ p. p.output_bytes) (load_module s.module_path)) r.2 l
            (subst
              (λ (q : String ⊎ ModuleDefinition F).
                compose_terminals fl load_module (before ++ t ∷ after) (suc i)
                  (a +ℤ image_size (λ p. p.input_bytes) q) (b +ℤ image_size (λ p. p.output_bytes) q)
                ≡ inr r.2)
              (sym r.1) r.3) in
        let own = channels_to_registers fl r.0 s.prefix a b in
        (
          own ++ h.0,
          h.1,
          r.4
              ∙ ap (λ (x : List (RegisterDefinition F)). own ++ x) h.2
              ∙ sym (
                  append_assoc own h.0 (
                    map
                      (λ c.
                        channel_to_register fl c t.prefix
                          (offset_after (λ p. p.input_bytes) before
                            (a +ℤ image_size (λ p. p.input_bytes) (load_module s.module_path)))
                          (offset_after (λ p. p.output_bytes) before
                            (b +ℤ image_size (λ p. p.output_bytes) (load_module s.module_path))))
                      m.channels
                    ++ h.1)),
        )

    -- When terminals are composed from given first offsets, each terminal's channels become
    -- registers in a row, named with its prefix: a digital channel at the offset that the process
    -- images of the terminals before it fill, an analog one at that offset plus twice its id, in
    -- 16 bits, for inputs and outputs each; inputs become read-only input registers, outputs
    -- holding registers that can be read and written.
    pub compose_terminals-at :
        (before after : List TerminalConfig) (t : TerminalConfig) (m : ModuleDefinition F) (i : ℕ)
        (a b : ℤ) (regs : List (RegisterDefinition F))
        → load_module t.module_path ≡ inr m
        → compose_terminals fl load_module (before ++ t ∷ after) i a b ≡ inr regs
        → (front own back : List (RegisterDefinition F)) × (regs ≡ front ++ (own ++ back))
          × EachPlaced t.prefix
              (offset_after (λ p. p.input_bytes) before a)
              (offset_after (λ p. p.output_bytes) before b)
              m.channels
              own
    compose_terminals-at before after t m i a b regs l e =
        let (front, back, q) = terminals_mapped before after t m i a b regs l e in
        (
          front,
          _,
          back,
          q,
          channels-EachPlaced m.channels t.prefix (offset_after (λ p. p.input_bytes) before a)
              (offset_after (λ p. p.output_bytes) before b),
        )

    -- Every register composed of the terminals is an input register that is read or a holding
    -- register that is read and written.
    pub compose_terminals-IsIo :
        (ts : List TerminalConfig) (i : ℕ) (a b : ℤ) (regs : List (RegisterDefinition F))
        → compose_terminals fl load_module ts i a b ≡ inr regs
        → All IsIo regs
    unfolding compose_terminals channels_to_registers
    compose_terminals-IsIo [] i a b regs e =
        subst (λ (rs : List (RegisterDefinition F)). All IsIo rs) {x = []} (cc e) tt
    compose_terminals-IsIo (t ∷ ts) i a b regs e =
        let r =
          first-at (λ j x y. compose_terminals fl load_module ts j x y) t
            (load_module t.module_path) i a b regs e in
        subst (λ (rs : List (RegisterDefinition F)). All IsIo rs) (sym r.4)
          (All-append IsIo (channels_to_registers fl r.0 t.prefix a b) r.2
            (channels-IsIo r.0.channels t.prefix a b)
            (compose_terminals-IsIo ts (suc i) (a +ℤ r.0.process_image.input_bytes)
              (b +ℤ r.0.process_image.output_bytes) r.2 r.3))
