-- ===== src/Chunk/Sample.antt =====
-- A function that the tests dump and load.
use hack_livesuite.Common.{refl, arith, Bool, [], ◌∷◌, some}
use hack_livesuite.Proto.{Verdict, accepted, Fields, Proto, Constant, proto, no_protos, more}
use hack_livesuite.Undump.{unknown_source}
use hack_livesuite.Undump.View.{Fits}

abbrev pub inner_fields : Fields
inner_fields = record {
  k = Constant.number 4607182418800017408 ∷ Constant.nil ∷ [];
  code = 0x1 ∷ 0x80001e ∷ [];
  lineinfo = 2 ∷ 2 ∷ [];
  locvars = record { varname = some (120 ∷ []); startpc = 1; endpc = 2 } ∷ [];
  upvalues = some (121 ∷ []) ∷ [];
  source = some (64 ∷ 97 ∷ []);
  linedefined = 1;
  lastlinedefined = 3;
  nups = 1;
  numparams = 0;
  is_vararg = 0;
  maxstacksize = 2;
}

-- A function inside a main function, both of the source "@a".
abbrev pub sample : Proto
sample = proto main_fields (more (proto inner_fields no_protos) no_protos)
  where
    main_fields : Fields
    main_fields = record {
      k = Constant.string (some (112 ∷ [])) ∷ Constant.boolean 1 ∷ [];
      code = 0x24 ∷ 0x80001e ∷ [];
      lineinfo = 3 ∷ 4 ∷ [];
      locvars = [];
      upvalues = [];
      source = some (64 ∷ 97 ∷ []);
      linedefined = 0;
      lastlinedefined = 0;
      nups = 0;
      numparams = 0;
      is_vararg = 2;
      maxstacksize = 2;
    }

abbrev pub accept : Proto → Verdict
accept f = accepted

pub sample-Fits : (strip : Bool) → Fits accept strip sample (some unknown_source)
unfolding Fits
sample-Fits strip = (omega arith, omega arith, refl, ((omega arith, omega arith, refl, tt), tt))
