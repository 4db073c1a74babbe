-- ===== src/Hardforks/Zond.antt =====
-- packages/web3-qrl-accounts/src/common: the tables of chains/mainnet.ts, hardforks/index.ts and
-- hardforks/zond.ts.
use web3_js.Common.{none, some, [], ◌∷◌, ◌++◌, String, ℕ}
use web3_js.JsMap.{JsMap}
use web3_js.Hardforks.{ParamValue, amount, steps, Spec, Qip, ChainConfig, number}

abbrev pub mainnet : ChainConfig
mainnet = record {
  chain_name = "mainnet";
  chain_id = 1;
  default_hardfork = some "zond";
  hardforks = record { name = "zond"; block = number 0; timestamp = none; fork_hash = none } ∷ [];
  consensus = record { kind = "pos"; algorithm = "casper" };
}

abbrev gas_config : JsMap String ParamValue
gas_config =
    ("minGasLimit", amount 5000)
    ∷ ("gasLimitBoundDivisor", amount 1024)
    ∷ ("maxRefundQuotient", amount 5)
    ∷ ("baseFeeMaxChangeDenominator", amount 8)
    ∷ ("elasticityMultiplier", amount 2)
    ∷ ("initialBaseFee", amount 1000000000)
    ∷ []

abbrev gas_prices_1 : JsMap String ParamValue
gas_prices_1 =
    ("base", amount 2)
    ∷ ("tierStep", steps (0 ∷ 2 ∷ 3 ∷ 5 ∷ 8 ∷ 10 ∷ 20 ∷ []))
    ∷ ("exp", amount 10)
    ∷ ("expByte", amount 50)
    ∷ ("sha3", amount 30)
    ∷ ("sha3Word", amount 6)
    ∷ ("sload", amount 0)
    ∷ ("sstoreSet", amount 20000)
    ∷ ("sstoreReset", amount 5000)
    ∷ ("sstoreRefund", amount 15000)
    ∷ ("jumpdest", amount 1)
    ∷ ("log", amount 375)
    ∷ ("logData", amount 8)
    ∷ ("logTopic", amount 375)
    ∷ ("create", amount 32000)
    ∷ ("call", amount 0)
    ∷ ("callStipend", amount 2300)
    ∷ ("callValueTransfer", amount 9000)
    ∷ ("callNewAccount", amount 25000)
    ∷ ("memory", amount 3)
    ∷ ("quadCoeffDiv", amount 512)
    ∷ ("createData", amount 200)
    ∷ ("tx", amount 21000)
    ∷ ("txCreation", amount 32000)
    ∷ ("txDataZero", amount 4)
    ∷ ("txDataNonZero", amount 16)
    ∷ ("copy", amount 3)
    ∷ ("depositroot", amount 19992)
    ∷ ("sha256", amount 60)
    ∷ ("sha256Word", amount 12)
    ∷ []

abbrev gas_prices_2 : JsMap String ParamValue
gas_prices_2 =
    ("identity", amount 15)
    ∷ ("identityWord", amount 3)
    ∷ ("stop", amount 0)
    ∷ ("add", amount 3)
    ∷ ("mul", amount 5)
    ∷ ("sub", amount 3)
    ∷ ("div", amount 5)
    ∷ ("sdiv", amount 5)
    ∷ ("mod", amount 5)
    ∷ ("smod", amount 5)
    ∷ ("addmod", amount 8)
    ∷ ("mulmod", amount 8)
    ∷ ("signextend", amount 5)
    ∷ ("lt", amount 3)
    ∷ ("gt", amount 3)
    ∷ ("slt", amount 3)
    ∷ ("sgt", amount 3)
    ∷ ("eq", amount 3)
    ∷ ("iszero", amount 3)
    ∷ ("and", amount 3)
    ∷ ("or", amount 3)
    ∷ ("xor", amount 3)
    ∷ ("not", amount 3)
    ∷ ("byte", amount 3)
    ∷ ("address", amount 2)
    ∷ ("balance", amount 0)
    ∷ ("origin", amount 2)
    ∷ ("caller", amount 2)
    ∷ ("callvalue", amount 2)
    ∷ ("calldataload", amount 3)
    ∷ []

abbrev gas_prices_3 : JsMap String ParamValue
gas_prices_3 =
    ("calldatasize", amount 2)
    ∷ ("calldatacopy", amount 3)
    ∷ ("codesize", amount 2)
    ∷ ("codecopy", amount 3)
    ∷ ("gasprice", amount 2)
    ∷ ("extcodesize", amount 0)
    ∷ ("extcodecopy", amount 0)
    ∷ ("blockhash", amount 20)
    ∷ ("coinbase", amount 2)
    ∷ ("timestamp", amount 2)
    ∷ ("number", amount 2)
    ∷ ("prevrandao", amount 2)
    ∷ ("gaslimit", amount 2)
    ∷ ("pop", amount 2)
    ∷ ("mload", amount 3)
    ∷ ("mstore", amount 3)
    ∷ ("mstore8", amount 3)
    ∷ ("sstore", amount 0)
    ∷ ("jump", amount 8)
    ∷ ("jumpi", amount 10)
    ∷ ("pc", amount 2)
    ∷ ("msize", amount 2)
    ∷ ("gas", amount 2)
    ∷ ("push", amount 3)
    ∷ ("dup", amount 3)
    ∷ ("swap", amount 3)
    ∷ ("return", amount 0)
    ∷ ("invalid", amount 0)
    ∷ ("delegatecall", amount 0)
    ∷ ("modexpGquaddivisor", amount 3)
    ∷ []

abbrev gas_prices_4 : JsMap String ParamValue
gas_prices_4 =
    ("ecAdd", amount 150)
    ∷ ("ecMul", amount 6000)
    ∷ ("ecPairing", amount 45000)
    ∷ ("ecPairingWord", amount 34000)
    ∷ ("revert", amount 0)
    ∷ ("staticcall", amount 0)
    ∷ ("returndatasize", amount 2)
    ∷ ("returndatacopy", amount 3)
    ∷ ("shl", amount 3)
    ∷ ("shr", amount 3)
    ∷ ("sar", amount 3)
    ∷ ("extcodehash", amount 0)
    ∷ ("create2", amount 32000)
    ∷ ("sstoreSentryGasEIP2200", amount 2300)
    ∷ ("sstoreNoopGasEIP2200", amount 100)
    ∷ ("sstoreDirtyGasEIP2200", amount 100)
    ∷ ("sstoreInitGasEIP2200", amount 20000)
    ∷ ("sstoreInitRefundEIP2200", amount 19900)
    ∷ ("sstoreCleanGasEIP2200", amount 2900)
    ∷ ("sstoreCleanRefundEIP2200", amount 4900)
    ∷ ("sstoreClearRefundEIP2200", amount 4800)
    ∷ ("chainid", amount 2)
    ∷ ("selfbalance", amount 5)
    ∷ ("coldsload", amount 2100)
    ∷ ("coldaccountaccess", amount 2600)
    ∷ ("warmstorageread", amount 100)
    ∷ ("accessListStorageKeyCost", amount 1900)
    ∷ ("accessListAddressCost", amount 2400)
    ∷ ("basefee", amount 2)
    ∷ ("push0", amount 2)
    ∷ []

abbrev gas_prices_5 : JsMap String ParamValue
gas_prices_5 = ("initCodeWordCost", amount 2) ∷ []

abbrev vm : JsMap String ParamValue
vm =
    ("stackLimit", amount 1024)
    ∷ ("callCreateDepth", amount 1024)
    ∷ ("maxExtraDataSize", amount 32)
    ∷ ("maxCodeSize", amount 24576)
    ∷ ("maxInitCodeSize", amount 49152)
    ∷ []

abbrev pub zond : Spec
zond = record {
  spec_name = "zond";
  spec_qips = none;
  topics =
      ("gasConfig", gas_config)
      ∷ ("gasPrices", gas_prices_1 ++ gas_prices_2 ++ gas_prices_3 ++ gas_prices_4 ++ gas_prices_5)
      ∷ ("vm", vm)
      ∷ [];
  spec_consensus = none;
}

abbrev pub hardfork_specs : JsMap String Spec
hardfork_specs = ("zond", zond) ∷ []

abbrev pub qips_table : JsMap ℕ Qip
qips_table = []
